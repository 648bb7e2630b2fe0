-- ===== src/Download/Refines.antt =====
-- The abstract download: a data file and the set of the pieces that are marked. Bytes are stored so
-- that no piece that was on disk is lost, and a piece is marked once, when it is on disk. The steps of
-- the goroutines are seen as its steps.
use bit_torrent.Download.Workers.{All-At}
use bit_torrent.Download.Sound.{IsOnDisk, WorkerSound, Sound, write_keeps}
use bit_torrent.Download.Finish.{Reach-Sound}
use bit_torrent.Download.{
  Download, Step, Reach, here, next, skip, take, retire, connect, reuse, give_up, receive, cancel,
  fail, crash, write, write_fails, mark, late, signal, done, count, requeue, drop_piece, stop,
  stop_trying, inject, discover, acquire, dial_fails, dialled, give_back, finish, time_out,
}
use bit_torrent.Pieces.Geometry.{num_pieces, piece_length_at, IsConsistent}
use bit_torrent.Pieces.Torrent.{TorrentInfo}
use bit_torrent.Wire.Bytes.{IsU32}
use bit_torrent.Base.{◌≡◌, ◌<◌, ℕ, List, false, true, Bool, set, get_or, length}

pub record Store : Type 0 where
  pub file : List ℕ
  pub completed : List Bool

-- What the pool, the queue, the sessions and the workers are forgotten to.
abbrev pub view : {Peer : Type 0} → Download Peer → Store
view d = record { file = d.file; completed = d.completed }

module _ (sha1 : List ℕ → List ℕ) (t : TorrentInfo) where
  pub data Spec (s : Store) : Store → Type 0 where
    stays : Spec s s
    stores :
        (file' : List ℕ)
        → length file' ≡ t.length
        → ((i : ℕ) → i < num_pieces t → IsOnDisk sha1 t s.file i → IsOnDisk sha1 t file' i)
        → Spec s (record s { file = file' })
    completes :
        (i : ℕ)
        → i < num_pieces t
        → IsOnDisk sha1 t s.file i
        → get_or s.completed i false ≡ false
        → Spec s (record s { completed = set s.completed i true })

  pub data SpecReach (s : Store) : Store → Type 0 where
    begins : SpecReach s s
    goes_on : {u v : Store} → SpecReach s u → Spec u v → SpecReach s v

  module _ (c : IsConsistent t) (u : (i : ℕ) → i < num_pieces t → IsU32 (piece_length_at t i))
      {Peer : Type 0} where
    step-Spec : (d e : Download Peer) → Sound sha1 t d → Step sha1 t d e → Spec (view d) (view e)
    step-Spec d _ s (skip k i q w at head old) = stays
    step-Spec d _ s (take k i q w at head new) = stays
    step-Spec d _ s (retire k i n w at few many) = stays
    step-Spec d _ s (connect k i n w r at few head) = stays
    step-Spec d _ s (reuse k i n w at few less) = stays
    step-Spec d _ s (give_up k i w at) = stays
    step-Spec d _ s (receive k i n w w' events b at r got key same) = stays
    step-Spec d _ s (cancel k i n w w' events sent at got key same) = stays
    step-Spec d _ s (fail k i n now w events f class sent at got cl) = stays
    step-Spec d _ s (crash k i n w events at got) = stays
    step-Spec d _ s (write k i n w b file' at wrote) =
        let (h, len, hash) = All-At (WorkerSound sha1 t d.file) d.workers k _ s.each at in
        let (size, good, keep) = write_keeps sha1 t i d.file b file' c h s.size len hash wrote in
        stores file' size keep
    step-Spec d _ s (write_fails k i n now w b at) = stays
    step-Spec d _ s (mark k i now latency w b at new) =
        let (h, it) = All-At (WorkerSound sha1 t d.file) d.workers k _ s.each at in
        completes i h it new
    step-Spec d _ s (late k i latency w b at old) = stays
    step-Spec d _ s (signal k i w b at) = stays
    step-Spec d _ s (done k i w b at) = stays
    step-Spec d _ s (count k w b at) = stays
    step-Spec d _ s (requeue k i w at room) = stays
    step-Spec d _ s (drop_piece k i w at over) = stays
    step-Spec d _ s (stop k w at over) = stays
    step-Spec d _ s (stop_trying k i n at over) = stays
    step-Spec d _ s (inject i begun h new room) = stays
    step-Spec d _ s (discover usable key p) = stays
    step-Spec d _ s (acquire now x held ready) = stays
    step-Spec d _ s (dial_fails key class now h) = stays
    step-Spec d _ s (dialled w h room) = stays
    step-Spec d _ s (give_back key h x) = stays
    step-Spec d _ s (finish e) = stays
    step-Spec d _ s time_out = stays

    -- Every run of the goroutines, from a sound state, is a run of the abstract download. The torrent
    -- is consistent, and the lengths of its pieces are uint32.
    pub Reach-SpecReach :
        (d e : Download Peer) → Sound sha1 t d → Reach sha1 t d e → SpecReach (view d) (view e)
    Reach-SpecReach d _ s here = begins
    Reach-SpecReach d _ s (next {e = m} r step) =
        goes_on (Reach-SpecReach d m s r) (step-Spec m _ (Reach-Sound sha1 t c u d m s r) step)
