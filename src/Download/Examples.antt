-- ===== src/Download/Examples.antt =====
-- The download of a torrent of one piece of two bytes, by one worker.
use bit_torrent.Download.Begin.{finished_genuine, no_piece_lost, begin-Sound}
use bit_torrent.Download.Kept.{Kept}
use bit_torrent.Download.Sound.{IsOnDisk}
use bit_torrent.Download.Refines.{view, SpecReach, Reach-SpecReach}
use bit_torrent.Download.Files.{OutputFile, Materialized, materialize_multi_file, directory_failed}
use bit_torrent.Download.Tiles.{AreOnDisk, materialize_tiles, paths, IsApart, AreApart}
use bit_torrent.Metadata.Info.{InfoFile}
use bit_torrent.Wire.Handshake.{codes}
use bit_torrent.Download.Stuck.{IsSame, stuck_until_cancelled}
use bit_torrent.Download.{
  session_pool_size, max_piece_attempts, Download, Reach, Session, here, next, begin, requeueing,
  missing, take, connect, receive, write, mark, signal, done, discover, acquire, dialled,
}
use bit_torrent.Pool.{add, Entry}
use bit_torrent.Transfer.{Event, received, downloaded, download_piece_from_session}
use bit_torrent.Transfer.Sound.{IsReceivable}
use bit_torrent.Pieces.Geometry.{num_pieces, piece_length_at, IsConsistent}
use bit_torrent.Pieces.Torrent.{TorrentInfo}
use bit_torrent.Pieces.Resume.{prepare_output_and_state, all_pieces_complete}
use bit_torrent.Wire.Bytes.{IsU32, put_uint32}
use bit_torrent.Wire.Message.{Message, piece_message}
use bit_torrent.Base.{
  pos, ◌∷◌, ◌+◌, [], ◌≡◌, ◌<◌, ◌≤◌, ℕ, List, false, true, Bool, some, none, set, get_or, length,
  arith, refl, suc, zero, ◌⊎◌, inl, inr, ◌++◌, ap, ◌∙◌, sym, All, Option,
}

abbrev first : List ℕ → List ℕ
first b = bit_torrent.Base.take 1 b

abbrev tiny : TorrentInfo
tiny = record {
  name = [];
  length = 2;
  piece_length = 2;
  private = false;
  piece_hashes = (3 ∷ []) ∷ [];
  files = [];
}

tiny-IsConsistent : IsConsistent tiny
unfolding num_pieces
tiny-IsConsistent = record {
  none_empty = omega arith;
  enough = omega arith;
  some_piece = omega arith;
}

tiny-IsU32 : (i : ℕ) → i < num_pieces tiny → IsU32 (piece_length_at tiny i)
unfolding num_pieces piece_length_at
tiny-IsU32 i h = ground arith

abbrev session : Session
session = record { key = 1 ∷ []; bitfield = []; ut_pex_id = 0; window = 8; served = 0 }

abbrev block : List ℕ
block = 3 ∷ 9 ∷ []

abbrev events : List Event
events = received (piece_message 0 0 block) ∷ []

block-IsReceivable : IsReceivable (piece_message 0 0 block)
unfolding piece_message put_uint32
block-IsReceivable = omega arith

downloads :
    download_piece_from_session first tiny 0 session.bitfield session.ut_pex_id session.window
      events
    ≡ downloaded block
unfolding download_piece_from_session bit_torrent.Transfer.run bit_torrent.Transfer.start
    bit_torrent.Transfer.turn piece_length_at piece_message
    bit_torrent.Wire.Message.parse_piece_message put_uint32 bit_torrent.Wire.Bytes.uint32
    bit_torrent.Base.◌===◌
downloads = refl

only_piece : All (λ i. i < num_pieces tiny) (0 ∷ [])
unfolding num_pieces
only_piece = (omega arith, tt)

abbrev start : Download ℕ
start = begin first tiny (prepare_output_and_state first [] none tiny) (0 ∷ []) [] 1

abbrev Run : Type 0
Run = (d : Download ℕ) × Reach first tiny start d × (d.wait ≡ 0)

some_room : 0 < session_pool_size
some_room = omega arith

some_attempts : 0 < max_piece_attempts
some_attempts = omega arith

-- The worker takes the piece; its peer is found and dialled, and serves it.
run : Run
unfolding missing prepare_output_and_state bit_torrent.Pieces.Resume.check_pieces
    bit_torrent.Pieces.Resume.truncate bit_torrent.Pieces.Resume.initial_completed num_pieces
    bit_torrent.Pieces.Resume.piece_ok bit_torrent.Pieces.Disk.write_piece bit_torrent.Pool.add
    bit_torrent.Pool.is_eligible bit_torrent.Base.◌===◌ piece_length_at
    bit_torrent.Pieces.Disk.write_at bit_torrent.Pieces.Geometry.piece_offset
run =
    let taken = next here (take 0 0 [] none refl refl refl) in
    let found = next taken (discover true (1 ∷ []) 5) in
    let dialling = next found (acquire 0 _ (inl refl) refl) in
    let ready = next dialling (dialled session refl some_room) in
    let connected = next ready (connect 0 0 0 session [] refl some_attempts refl) in
    let served = next connected (
      receive 0 0 0 session session events block refl (block-IsReceivable, tt) downloads refl
        refl) in
    let stored = next served (write 0 0 0 session block block refl refl) in
    let told = next stored (mark 0 0 0 100 session block refl refl) in
    (_, next (next told (signal 0 0 _ block refl)) (done 0 0 _ block refl), refl)

finished_genuine_example :
    (all_pieces_complete run.0.completed ≡ true)
    × (length run.0.file ≡ 2)
    × ((i : ℕ) → i < num_pieces tiny → IsOnDisk first tiny run.0.file i)
finished_genuine_example =
    finished_genuine first tiny tiny-IsConsistent tiny-IsU32 [] none (0 ∷ []) [] 1 only_piece run.0
      run.1 run.2

no_piece_lost_example : Kept 0 run.0.completed run.0.queue run.0.workers run.0.cancelled
no_piece_lost_example =
    no_piece_lost first tiny tiny-IsConsistent tiny-IsU32 [] none (0 ∷ []) [] 1 only_piece run.0
      run.1 0 (inl refl)

Reach-SpecReach_example : SpecReach first tiny (view start) (view run.0)
Reach-SpecReach_example =
    Reach-SpecReach first tiny tiny-IsConsistent tiny-IsU32 start run.0
      (begin-Sound first tiny {Peer = ℕ} [] none (0 ∷ []) [] 1 only_piece) run.1

-- The queue is full, and the only worker is about to put the piece back; then the time is up.
abbrev stuck : Download ℕ
stuck = record start { queue = 0 ∷ 0 ∷ []; endgame = true; workers = requeueing 0 none ∷ [] }

stuck-reached : Reach first tiny stuck (record stuck { pool = (add true (1 ∷ []) 5 start.pool) })
stuck-reached = next here (discover true (1 ∷ []) 5)

stuck_until_cancelled_example :
    (stuck.cancelled ≡ true)
    ⊎ IsSame stuck (record stuck { pool = (add true (1 ∷ []) 5 start.pool) })
unfolding num_pieces prepare_output_and_state bit_torrent.Pieces.Resume.check_pieces
    bit_torrent.Pieces.Resume.initial_completed
stuck_until_cancelled_example =
    stuck_until_cancelled first tiny stuck
      (record stuck { pool = (add true (1 ∷ []) 5 start.pool) }) refl (tt, tt) (omega arith)
      stuck-reached

-- Two files, and a third one of no bytes without a name.
abbrev no_trim : List ℕ → List ℕ
no_trim p = p

abbrev three_files : List InfoFile
three_files =
    record { length = pos 2; path = codes "a" ∷ codes "b" ∷ [] }
    ∷ record { length = pos 1; path = codes ".." ∷ codes "c" ∷ [] }
    ∷ record { length = pos 0; path = [] }
    ∷ []

abbrev kept : OutputFile
kept = record { path = codes "old" ∷ []; bytes = 1 ∷ [] }

three_files_fit :
    AreApart (paths no_trim 0 three_files)
    × All (IsApart (codes "old" ∷ [])) (paths no_trim 0 three_files)
unfolding bit_torrent.Download.Files.begins_with bit_torrent.Download.Files.parts_or_index
    bit_torrent.Swarm.sanitize_path_parts bit_torrent.Base.◌===◌
three_files_fit = (
  (((refl, refl), ((refl, refl), tt)), (((refl, refl), tt), (tt, tt))),
  ((refl, refl), ((refl, refl), ((refl, refl), tt))),
)

materialize_tiles_example :
    AreOnDisk no_trim
      (7 ∷ 8 ∷ 9 ∷ [])
      (materialize_multi_file no_trim (7 ∷ 8 ∷ 9 ∷ []) (kept ∷ []) three_files)
      (kept ∷ [])
      (paths no_trim 0 three_files)
      (2 ∷ 1 ∷ 0 ∷ [])
      (7 ∷ 8 ∷ 9 ∷ [])
materialize_tiles_example =
    materialize_tiles no_trim (7 ∷ 8 ∷ 9 ∷ []) three_files (2 ∷ 1 ∷ 0 ∷ []) (kept ∷ [])
      (refl, (refl, (refl, tt))) (omega arith) three_files_fit.0 (three_files_fit.1, tt)

-- The later of two files of one path replaces the earlier one, and a file below a file is an error.
same_path :
    materialize_multi_file no_trim (7 ∷ 8 ∷ []) [] (
      record { length = pos 1; path = codes "a/b" ∷ [] }
      ∷ record { length = pos 1; path = codes "a_b" ∷ [] }
      ∷ [])
    ≡ record { files = record { path = codes "a_b" ∷ []; bytes = 8 ∷ [] } ∷ []; failed = none }
unfolding materialize_multi_file bit_torrent.Swarm.sanitize_path_parts bit_torrent.Base.◌===◌
same_path = refl

below_file :
    materialize_multi_file no_trim (7 ∷ 8 ∷ []) [] (
      record { length = pos 1; path = codes "a" ∷ [] }
      ∷ record { length = pos 1; path = codes "a" ∷ codes "b" ∷ [] }
      ∷ [])
    ≡ record {
      files = record { path = codes "a" ∷ []; bytes = 7 ∷ [] } ∷ [];
      failed = some directory_failed;
    }
unfolding materialize_multi_file bit_torrent.Swarm.sanitize_path_parts bit_torrent.Base.◌===◌
below_file = refl
