-- ===== src/Download/Begin.antt =====
-- What the goroutines start from, and what they leave behind.
use bit_torrent.Download.Workers.{All-replicate, count_true-all, unwaited-replicate}
use bit_torrent.Download.Sound.{IsOnDisk, WorkerSound, Sound, wait-positive}
use bit_torrent.Download.Kept.{Kept, flagged, queued, IsKept, step-Kept}
use bit_torrent.Download.Finish.{Reach-Sound}
use bit_torrent.Download.{here, next, At, Download, Reach, begin, Session, missing, signalled, idle}
use bit_torrent.Pool.{Entry}
use bit_torrent.Pieces.Disk.{DiskError, verify_piece_from_disk}
use bit_torrent.Pieces.Geometry.{num_pieces, piece_length_at, IsConsistent}
use bit_torrent.Pieces.Torrent.{TorrentInfo}
use bit_torrent.Pieces.Resume.{
  count_true-le, all_pieces_complete, all_pieces_complete_iff, prepare_output_and_state,
  prepare_sound, piece_ok, truncate,
}
use bit_torrent.Wire.Bytes.{IsU32}
use bit_torrent.Base.{
  ◌∙◌, ◌⊎◌, Any, Result, Bool-cases, ◌∷◌, ◌-◌, [], ◌≡◌, ◌<◌, ℕ, List, false, true, Bool, Option,
  none, get_or, All, length, arith, inl, inr, ◌++◌, ok, ap, replicate, length-append,
  length-replicate, length-take, err,
}

All-missing :
    (P : ℕ → Type 0) (completed : List Bool) (order : List ℕ)
    → All P order
    → All P (missing completed order)
unfolding missing
All-missing P completed [] h = h
All-missing P completed (i ∷ is) h = elim (Bool-cases (get_or completed i false)) [
  | inl e ↦ rw e (All-missing P completed is h.1)
  | inr e ↦ rw e (h.0, All-missing P completed is h.1)
]

Any-missing :
    (p : ℕ) (completed : List Bool) (order : List ℕ)
    → Any (λ i. p ≡ i) order
    → (get_or completed p false ≡ true) ⊎ Any (λ i. p ≡ i) (missing completed order)
unfolding missing
Any-missing p completed [] h = inr h
Any-missing p completed (i ∷ is) (inl e) = elim (Bool-cases (get_or completed i false)) [
  | inl old ↦ inl (ap (λ j. get_or completed j false) e ∙ old)
  | inr new ↦ inr (rw new (inl e))
]
Any-missing p completed (i ∷ is) (inr h) = elim (Any-missing p completed is h) [
  | inl old ↦ inl old
  | inr rest ↦ elim (Bool-cases (get_or completed i false)) [
    | inl e ↦ inr (rw e rest)
    | inr e ↦ inr (rw e (inr rest))
  ]
]

length-truncate : (n : ℕ) (file : List ℕ) → length (truncate n file) ≡ n
unfolding truncate
length-truncate n file = omega (
  arith,
  length-take n (file ++ replicate (n - length file) 0),
  length-append file (replicate (n - length file) 0),
  length-replicate {A = ℕ} (n - length file) 0,
)

verified : (r : Result DiskError Bool) → (elim r [ ok b ↦ b | err e ↦ false ]) ≡ true → r ≡ ok true
verified (ok b) e = ap ok e
verified (err x) e = absurd (ground arith)

module _ (sha1 : List ℕ → List ℕ) (t : TorrentInfo) where
  piece_ok-IsOnDisk :
      (file : List ℕ) (i : ℕ) → piece_ok sha1 file t i ≡ true → IsOnDisk sha1 t file i
  unfolding piece_ok
  piece_ok-IsOnDisk file i e = verified (verify_piece_from_disk sha1 file t i) e

  pub begin-Sound :
      {Peer : Type 0} (file : List ℕ) (state : Option (List Bool)) (order : List ℕ)
      (pool : List (Entry Peer)) (n : ℕ)
      → All (λ i. i < num_pieces t) order
      → Sound sha1 t (begin sha1 t (prepare_output_and_state sha1 file state t) order pool n)
  begin-Sound file state order pool n h =
      let p = prepare_output_and_state sha1 file state t in
      let (which, flags, rest) = prepare_sound sha1 file state t in
      record {
        size = unfold prepare_output_and_state in length-truncate t.length file;
        flags = flags;
        on_disk = λ i hi e. piece_ok-IsOnDisk p.file i (ground (arith, which i, e));
        queued = All-missing (λ i. i < num_pieces t) p.completed order h;
        each = All-replicate (WorkerSound sha1 t p.file) n (idle none) tt;
        balance = omega (arith, rest, unwaited-replicate n);
      }

  module _ (c : IsConsistent t) (u : (i : ℕ) → i < num_pieces t → IsU32 (piece_length_at t i))
      {Peer : Type 0} (file : List ℕ) (state : Option (List Bool)) (order : List ℕ)
      (pool : List (Entry Peer)) (n : ℕ) (h : All (λ i. i < num_pieces t) order) (d : Download Peer)
      (r : Reach sha1 t
        (begin sha1 t (prepare_output_and_state sha1 file state t) order pool n)
        d) where
    Reach-Kept :
        (p : ℕ) (e f : Download Peer)
        → Sound sha1 t e
        → IsKept sha1 t p e
        → Reach sha1 t e f
        → IsKept sha1 t p f
    Reach-Kept p e _ sound kept here = kept
    Reach-Kept p e _ sound kept (next {e = m} r step) =
        step-Kept sha1 t p m _ (Reach-Sound sha1 t c u e m sound r) (Reach-Kept p e m sound kept r)
          step

    reached : Sound sha1 t d
    reached = Reach-Sound sha1 t c u _ d (begin-Sound file state order pool n h) r

    -- When the wait for the pieces ends, every piece is marked, and the data file has the size of
    -- the torrent and verifies piece by piece: the error for an incomplete download that follows the
    -- wait is never returned then. This holds for every order of the steps of the workers, the
    -- connectors and the endgame, whatever the peers sent and the saved state said. The torrent is
    -- consistent, with pieces whose lengths are uint32, and the order of the pieces names no other.
    pub finished_genuine :
        d.wait ≡ 0
        → (all_pieces_complete d.completed ≡ true)
          × (length d.file ≡ t.length)
          × ((i : ℕ) → i < num_pieces t → IsOnDisk sha1 t d.file i)
    finished_genuine e =
        let s = reached in
        let most = count_true-le d.completed in
        let n = s.flags in
        let b = s.balance in
        (
          (all_pieces_complete_iff d.completed).1 (omega arith),
          s.size,
          λ i hi. s.on_disk i hi (count_true-all d.completed i (omega arith) (omega arith)),
        )

    -- No worker takes the counter of the wait group below zero.
    pub done_counts :
        (k i : ℕ) (s : Session) (b : List ℕ) → At d.workers k (signalled i s b) → 0 < d.wait
    done_counts k i s b e = wait-positive sha1 t d.workers k i s b reached e

    -- While the download is not over and no worker has ended, no piece of the order is lost: each is
    -- marked, or waits in the queue, or is carried by a worker.
    pub no_piece_lost :
        (p : ℕ) → Any (λ i. p ≡ i) order → Kept p d.completed d.queue d.workers d.cancelled
    no_piece_lost p asked =
        Reach-Kept p _ d (begin-Sound file state order pool n h)
          (first (Any-missing p (prepare_output_and_state sha1 file state t).completed order asked))
          r
      where
        first :
            (get_or (prepare_output_and_state sha1 file state t).completed p false ≡ true)
              ⊎ Any
                  (λ i. p ≡ i)
                  (missing (prepare_output_and_state sha1 file state t).completed order)
            → IsKept sha1 t p
                (begin sha1 t (prepare_output_and_state sha1 file state t) order pool n)
        first (inl old) = flagged old
        first (inr waits) = queued waits
