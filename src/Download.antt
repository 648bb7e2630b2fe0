-- ===== src/Download.antt =====
-- `DownloadTorrentWithOptions` of internal/downloader/downloader.go, after the data file was
-- prepared: the workers, the connectors, the endgame and the wait for the last piece, as a step
-- relation on what they share. One step is what one goroutine does between two operations on shared
-- state; the steps of all goroutines interleave in any order. A write to the disk fails whole. The
-- progress output, the session log and the saving of the resume state are left out.
mod State
unfoldable pub use State.*
pub mod Workers
pub mod Sound
pub mod Finish
pub mod Begin
pub mod Kept
pub mod Refines
pub mod Files
pub mod Tiles
pub mod Stuck
mod Examples
use bit_torrent.Pieces.Disk.{write_piece}
use bit_torrent.Wire.Message.{Message}
use bit_torrent.Transfer.Sound.{AreReceivable}
use bit_torrent.Pieces.Geometry.{num_pieces}
use bit_torrent.Pieces.Resume.{count_true, Prepared}
use bit_torrent.Pieces.Torrent.{TorrentInfo}
use bit_torrent.Pool.{
  is_eligible, add, report_success, io, report_failure_with, release, FailureClass, Entry,
}
use bit_torrent.Transfer.{
  panicked, refused, downloaded, download_piece_from_session, Event, Failure,
}
use bit_torrent.Swarm.{complete, new_completion_bus, subscribe}
use bit_torrent.Base.{
  leb, ◌-◌, length, ok, replicate, none, get_or, set, some, ◌||◌, Option, ◌∷◌, ◌+◌, [], ◌≡◌, ◌<◌,
  ◌≤◌, ℕ, List, false, true, Bool, ◌*◌, ◌++◌,
}

module _ {Peer : Type 0} (sha1 : List ℕ → List ℕ) (t : TorrentInfo) where
  -- Worker `k` goes on as `w`.
  abbrev pub becomes : Download Peer → ℕ → Worker → Download Peer
  becomes d k w = record d { workers = set d.workers k w }

  -- A session that failed: its peer is reported and put back.
  abbrev pub fails : Download Peer → Session → FailureClass → ℕ → Download Peer
  fails d s class now = record d {
    pool = release s.key (report_failure_with s.key class now d.pool);
  }

  pub data Step (d : Download Peer) : Download Peer → Type 0 where
    -- A worker takes a piece off the queue; one that is completed by now is dropped.
    skip :
        (k i : ℕ) (q : List ℕ) (s : Option Session)
        → At d.workers k (idle s)
        → d.queue ≡ i ∷ q
        → get_or d.completed i false ≡ true
        → Step d (record d { queue = q })
    take :
        (k i : ℕ) (q : List ℕ) (s : Option Session)
        → At d.workers k (idle s)
        → d.queue ≡ i ∷ q
        → get_or d.completed i false ≡ false
        → Step d (record (becomes d k (trying i 0 s)) { queue = q; bus = (subscribe i d.bus).0 })
    -- The head of the loop over attempts: a session that served enough is released, and a new one
    -- is taken where there is none.
    retire :
        (k i n : ℕ) (s : Session)
        → At d.workers k (trying i n (some s))
        → n < max_piece_attempts
        → max_pieces_per_session ≤ s.served
        → Step d (record (becomes d k (trying i n none)) { pool = release s.key d.pool })
    connect :
        (k i n : ℕ) (s : Session) (r : List Session)
        → At d.workers k (trying i n none)
        → n < max_piece_attempts
        → d.ready ≡ s ∷ r
        → Step d (record (becomes d k (downloading i n s)) { ready = r })
    reuse :
        (k i n : ℕ) (s : Session)
        → At d.workers k (trying i n (some s))
        → n < max_piece_attempts
        → s.served < max_pieces_per_session
        → Step d (becomes d k (downloading i n s))
    give_up :
        (k i : ℕ) (s : Option Session)
        → At d.workers k (trying i max_piece_attempts s)
        → Step d (becomes d k (requeueing i s))
    -- What `downloadPieceFromSession` answers; the bitfield and the window of the session may
    -- have changed.
    receive :
        (k i n : ℕ) (s s' : Session) (events : List Event) (b : List ℕ)
        → At d.workers k (downloading i n s)
        → AreReceivable events
        → download_piece_from_session sha1 t i s.bitfield s.ut_pex_id s.window events ≡ downloaded b
        → s'.key ≡ s.key
        → s'.served ≡ s.served
        → Step d (becomes d k (writing i n s' b))
    cancel :
        (k i n : ℕ) (s s' : Session) (events : List Event) (sent : List Message)
        → At d.workers k (downloading i n s)
        → download_piece_from_session sha1 t i s.bitfield s.ut_pex_id s.window events
          ≡ refused Failure.piece_cancelled_by_other sent
        → s'.key ≡ s.key
        → s'.served ≡ s.served
        → Step d (becomes d k (requeueing i (some s')))
    fail :
        (k i n now : ℕ) (s : Session) (events : List Event) (f : Failure) (class : FailureClass)
        (sent : List Message)
        → At d.workers k (downloading i n s)
        → download_piece_from_session sha1 t i s.bitfield s.ut_pex_id s.window events
          ≡ refused f sent
        → HasClass f class
        → Step d (becomes (fails d s class now) k (trying i (n + 1) none))
    -- The worker recovers, and ends; its piece is in no queue.
    crash :
        (k i n : ℕ) (s : Session) (events : List Event)
        → At d.workers k (downloading i n s)
        → download_piece_from_session sha1 t i s.bitfield s.ut_pex_id s.window events ≡ panicked
        → Step d (record (becomes d k stopped) { pool = release s.key d.pool })
    -- `writePiece`, which may fail.
    write :
        (k i n : ℕ) (s : Session) (b file' : List ℕ)
        → At d.workers k (writing i n s b)
        → write_piece d.file t i b ≡ ok file'
        → Step d (record (becomes d k (written i s b)) { file = file' })
    write_fails :
        (k i n now : ℕ) (s : Session) (b : List ℕ)
        → At d.workers k (writing i n s b)
        → Step d (becomes (fails d s io now) k (trying i (n + 1) none))
    -- Under the lock: the first worker to finish a piece marks it.
    mark :
        (k i now latency : ℕ) (s : Session) (b : List ℕ)
        → At d.workers k (written i s b)
        → get_or d.completed i false ≡ false
        → Step d (record (becomes d k (marked i (tuned s latency) b)) {
          completed = set d.completed i true;
          pool = report_success s.key (length b) latency d.pool;
        })
    late :
        (k i latency : ℕ) (s : Session) (b : List ℕ)
        → At d.workers k (written i s b)
        → get_or d.completed i false ≡ true
        → Step d (record (becomes d k (idle (some (served_more (tuned s latency))))) {
          pool = report_success s.key (length b) latency d.pool;
        })
    signal :
        (k i : ℕ) (s : Session) (b : List ℕ)
        → At d.workers k (marked i s b)
        → Step d (record (becomes d k (signalled i s b)) { bus = complete i d.bus })
    done :
        (k i : ℕ) (s : Session) (b : List ℕ)
        → At d.workers k (signalled i s b)
        → Step d (record (becomes d k (waited s b)) { wait = d.wait - 1 })
    count :
        (k : ℕ) (s : Session) (b : List ℕ)
        → At d.workers k (waited s b)
        → Step d (record (becomes d k (idle (some (served_more s)))) {
          completed_count = d.completed_count + 1;
          downloaded_bytes = d.downloaded_bytes + length b;
          endgame = d.endgame || leb (num_pieces t) (d.completed_count + 1 + endgame_threshold);
        })
    -- A piece goes back into the queue when there is room, or when all is over.
    requeue :
        (k i : ℕ) (s : Option Session)
        → At d.workers k (requeueing i s)
        → length d.queue < queue_capacity t
        → Step d (record (becomes d k (idle s)) { queue = d.queue ++ (i ∷ []) })
    drop_piece :
        (k i : ℕ) (s : Option Session)
        → At d.workers k (requeueing i s)
        → d.cancelled ≡ true
        → Step d (becomes d k (idle s))
    stop :
        (k : ℕ) (s : Option Session)
        → At d.workers k (idle s)
        → d.cancelled ≡ true
        → Step d (record (becomes d k stopped) { pool = release_session s d.pool })
    stop_trying :
        (k i n : ℕ)
        → At d.workers k (trying i n none)
        → d.cancelled ≡ true
        → Step d (becomes d k stopped)
    -- The endgame offers a piece that is missing again, if the queue has room.
    inject :
        (i : ℕ)
        → d.endgame ≡ true
        → i < num_pieces t
        → get_or d.completed i false ≡ false
        → length d.queue < queue_capacity t
        → Step d (record d { queue = d.queue ++ (i ∷ []) })
    -- The pool and the connectors.
    discover :
        (usable : Bool) (key : List ℕ) (p : Peer)
        → Step d (record d { pool = add usable key p d.pool })
    acquire :
        (now : ℕ) (e : Entry Peer)
        → Holds e d.pool
        → is_eligible now e ≡ true
        → Step d (record d { pool = occupy e.key d.pool; dialling = e.key ∷ d.dialling })
    dial_fails :
        (key : List ℕ) (class : FailureClass) (now : ℕ)
        → contains d.dialling key ≡ true
        → Step d (record d {
          pool = release key (report_failure_with key class now d.pool);
          dialling = remove_one key d.dialling;
        })
    dialled :
        (s : Session)
        → contains d.dialling s.key ≡ true
        → length d.ready < session_pool_size
        → Step d (record d { ready = d.ready ++ (s ∷ []); dialling = remove_one s.key d.dialling })
    -- A connector that finds the context cancelled puts its peer back.
    give_back :
        (key : List ℕ)
        → contains d.dialling key ≡ true
        → d.cancelled ≡ true
        → Step d (record d { pool = release key d.pool; dialling = remove_one key d.dialling })
    -- All pieces are waited for, or the time is up.
    finish : d.wait ≡ 0 → Step d (record d { cancelled = true })
    time_out : Step d (record d { cancelled = true })

  pub data Reach (d : Download Peer) : Download Peer → Type 0 where
    here : Reach d d
    next : {e f : Download Peer} → Reach d e → Step e f → Reach d f

  -- What the goroutines start from: the prepared file, the missing pieces in the order that
  -- `buildRarestFirstOrder` gives, and workers without a session.
  abbrev pub begin : Prepared → List ℕ → List (Entry Peer) → ℕ → Download Peer
  begin p order pool n = record {
    queue = missing p.completed order;
    completed = p.completed;
    file = p.file;
    wait = p.remaining;
    completed_count = count_true p.completed;
    downloaded_bytes = bytes_of t p.completed 0;
    endgame = false;
    cancelled = false;
    bus = new_completion_bus;
    pool = pool;
    dialling = [];
    ready = [];
    workers = replicate n (idle none);
  }
