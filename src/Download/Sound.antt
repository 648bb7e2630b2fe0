-- ===== src/Download/Sound.antt =====
-- What the goroutines keep true of the data file, the flags, the queue, `pieceWG` and the workers.
use bit_torrent.Download.Workers.{
  count_true-set, get_or-set, All-At, All-set, pending, unwaited, unwaited-set,
}
use bit_torrent.Download.{
  Session, At, Worker, Download, marked, signalled, idle, trying, downloading, writing, written,
  waited, requeueing, stopped,
}
use bit_torrent.Pieces.Written.{write_piece_self, write_piece_other}
use bit_torrent.Pieces.Disk.{DiskError, write_piece, verify_piece_from_disk}
use bit_torrent.Pieces.Geometry.{num_pieces, piece_length_at, IsConsistent}
use bit_torrent.Pieces.Torrent.{TorrentInfo}
use bit_torrent.Pieces.Resume.{count_true, count_true-le}
use bit_torrent.Base.{
  All-map, length-set, Result, ◌-◌, Bool-cases, err, ◌==◌, subst, ◌∷◌, ◌+◌, [], ◌≡◌, ◌<◌, ℕ, List,
  false, true, Bool, set, get_or, All, All-append, length, arith, inl, inr, ◌++◌, ok, ◌===◌,
  ===_refl, ap, ◌∙◌, sym,
}

ok_inj : (a b : List ℕ) → ◌≡◌ {A = Result DiskError (List ℕ)} (ok a) (ok b) → a ≡ b
ok_inj a b e = ap (λ r. elim r as (λ _. List ℕ) [ ok x ↦ x | err y ↦ a ]) e

module _ (sha1 : List ℕ → List ℕ) (t : TorrentInfo) where
  -- The bytes of a piece in the file have its hash.
  abbrev pub IsOnDisk : List ℕ → ℕ → Type 0
  IsOnDisk file i = verify_piece_from_disk sha1 file t i ≡ ok true

  abbrev pub WorkerSound : List ℕ → Worker → Type 0
  WorkerSound file (idle s) = Unit {0}
  WorkerSound file (trying i n s) = i < num_pieces t
  WorkerSound file (downloading i n s) = i < num_pieces t
  WorkerSound file (writing i n s b) =
      (i < num_pieces t) × (length b ≡ piece_length_at t i) × (sha1 b ≡ get_or t.piece_hashes i [])
  WorkerSound file (written i s b) = (i < num_pieces t) × IsOnDisk file i
  WorkerSound file (marked i s b) = Unit {0}
  WorkerSound file (signalled i s b) = Unit {0}
  WorkerSound file (waited s b) = Unit {0}
  WorkerSound file (requeueing i s) = i < num_pieces t
  WorkerSound file stopped = Unit {0}

  pub record IsSound (file : List ℕ) (completed : List Bool) (queue : List ℕ) (wait : ℕ)
      (workers : List Worker) : Type 0 where
    pub size : length file ≡ t.length
    pub flags : length completed ≡ num_pieces t
    pub on_disk : (i : ℕ) → i < num_pieces t → get_or completed i false ≡ true → IsOnDisk file i
    pub queued : All (λ i. i < num_pieces t) queue
    pub each : All (WorkerSound file) workers
    pub balance : wait + count_true completed ≡ num_pieces t + unwaited workers

  abbrev pub Sound : {Peer : Type 0} → Download Peer → Type 0
  Sound d = IsSound d.file d.completed d.queue d.wait d.workers

  -- A worker that goes on, without marking a piece.
  pub moves :
      {file : List ℕ} {completed : List Bool} {queue : List ℕ} {wait : ℕ} (ws : List Worker) (k : ℕ)
      (w w' : Worker)
      → IsSound file completed queue wait ws
      → At ws k w
      → (WorkerSound file w → WorkerSound file w')
      → pending w' ≡ pending w
      → IsSound file completed queue wait (set ws k w')
  moves {file = file} ws k w w' s e f p = record {
    size = s.size;
    flags = s.flags;
    on_disk = s.on_disk;
    queued = s.queued;
    each =
        All-set (WorkerSound file) ws k w' s.each (f (All-At (WorkerSound file) ws k w s.each e));
    balance = let moved = unwaited-set ws k w w' e in let b = s.balance in omega arith;
  }

  pub shorter :
      {file : List ℕ} {completed : List Bool} {wait : ℕ} {ws : List Worker} (queue q : List ℕ)
      (i : ℕ)
      → IsSound file completed queue wait ws
      → queue ≡ i ∷ q
      → (i < num_pieces t) × IsSound file completed q wait ws
  shorter queue q i s e =
      let all = subst (All (λ i. i < num_pieces t)) e s.queued in
      (
        all.0,
        record {
          size = s.size;
          flags = s.flags;
          on_disk = s.on_disk;
          queued = all.1;
          each = s.each;
          balance = s.balance;
        },
      )

  pub longer :
      {file : List ℕ} {completed : List Bool} {wait : ℕ} {ws : List Worker} {queue : List ℕ} (i : ℕ)
      → IsSound file completed queue wait ws
      → i < num_pieces t
      → IsSound file completed (queue ++ (i ∷ [])) wait ws
  longer {queue = queue} i s h = record {
    size = s.size;
    flags = s.flags;
    on_disk = s.on_disk;
    queued = All-append (λ i. i < num_pieces t) queue (i ∷ []) s.queued (h, tt);
    each = s.each;
    balance = s.balance;
  }

  -- A genuine piece that is written: it is on disk, and so is all that was.
  pub write_keeps :
      (i : ℕ) (file b file' : List ℕ)
      → IsConsistent t
      → i < num_pieces t
      → length file ≡ t.length
      → length b ≡ piece_length_at t i
      → sha1 b ≡ get_or t.piece_hashes i []
      → write_piece file t i b ≡ ok file'
      → (length file' ≡ t.length)
        × IsOnDisk file' i
        × ((j : ℕ) → j < num_pieces t → IsOnDisk file j → IsOnDisk file' j)
  write_keeps i file b file' c h size len hash e =
      let (f, wrote, check, size') = write_piece_self sha1 t i file b c h size len in
      let same : f ≡ file' = ok_inj f file' (sym wrote ∙ e) in
      let good : IsOnDisk file' i =
        subst (λ x. IsOnDisk x i) same
          (check ∙ ap ok (ap (λ x. x === get_or t.piece_hashes i []) hash ∙ ===_refl _)) in
      (subst (λ x. length x ≡ t.length) same size', good, others good)
    where
      others : IsOnDisk file' i → (j : ℕ) → j < num_pieces t → IsOnDisk file j → IsOnDisk file' j
      others good j hj old = elim (Bool-cases (i == j)) [
        | inl eq ↦ subst (IsOnDisk file') (ground (arith, eq)) good
        | inr ne ↦
            let (g, wrote', keeps) =
              write_piece_other sha1 t i j file b c h hj (λ eq. ground (arith, ne, eq)) size len in
            subst (λ x. IsOnDisk x j) (ok_inj g file' (sym wrote' ∙ e)) (keeps ∙ old)
      ]

  -- What a worker has found out stays true when a piece is written.
  WorkerSound-keeps :
      (file file' : List ℕ) (w : Worker)
      → ((j : ℕ) → j < num_pieces t → IsOnDisk file j → IsOnDisk file' j)
      → WorkerSound file w
      → WorkerSound file' w
  WorkerSound-keeps file file' (idle s) keep h = h
  WorkerSound-keeps file file' (trying i n s) keep h = h
  WorkerSound-keeps file file' (downloading i n s) keep h = h
  WorkerSound-keeps file file' (writing i n s b) keep h = h
  WorkerSound-keeps file file' (written i s b) keep h = (h.0, keep i h.0 h.1)
  WorkerSound-keeps file file' (marked i s b) keep h = h
  WorkerSound-keeps file file' (signalled i s b) keep h = h
  WorkerSound-keeps file file' (waited s b) keep h = h
  WorkerSound-keeps file file' (requeueing i s) keep h = h
  WorkerSound-keeps file file' stopped keep h = h

  pub after_write :
      {completed : List Bool} {queue : List ℕ} {wait : ℕ} {ws : List Worker} (file file' : List ℕ)
      → IsSound file completed queue wait ws
      → length file' ≡ t.length
      → ((j : ℕ) → j < num_pieces t → IsOnDisk file j → IsOnDisk file' j)
      → IsSound file' completed queue wait ws
  after_write {ws = ws} file file' s size keep = record {
    size = size;
    flags = s.flags;
    on_disk = λ i h e. keep i h (s.on_disk i h e);
    queued = s.queued;
    each =
        All-map (WorkerSound file) (WorkerSound file') ws (λ w. WorkerSound-keeps file file' w keep)
          s.each;
    balance = s.balance;
  }

  pub marks :
      {file : List ℕ} {queue : List ℕ} {wait : ℕ} (completed : List Bool) (ws : List Worker)
      (k i : ℕ) (s s' : Session) (b : List ℕ)
      → IsSound file completed queue wait ws
      → At ws k (written i s b)
      → get_or completed i false ≡ false
      → IsSound file (set completed i true) queue wait (set ws k (marked i s' b))
  marks {file = file} completed ws k i s s' b sound e new =
      let (h, here) = All-At (WorkerSound file) ws k _ sound.each e in
      let n = sound.flags in
      record {
        size = sound.size;
        flags = length-set completed i true ∙ n;
        on_disk = λ j hj ej. elim (get_or-set completed i j ej) [
          | inl eq ↦ subst (IsOnDisk file) (sym eq) here
          | inr old ↦ sound.on_disk j hj old
        ];
        queued = sound.queued;
        each = All-set (WorkerSound file) ws k _ sound.each tt;
        balance =
            let more = count_true-set completed i (omega arith) new in
            let moved = unwaited-set ws k _ (marked i s' b) e in
            let b = sound.balance in omega arith;
      }

  -- `pieceWG.Done` is called while the counter is positive: each worker that is to call it marked
  -- a piece of its own.
  pub wait-positive :
      {file : List ℕ} {completed : List Bool} {queue : List ℕ} {wait : ℕ} (ws : List Worker)
      (k i : ℕ) (s : Session) (b : List ℕ)
      → IsSound file completed queue wait ws
      → At ws k (signalled i s b)
      → 0 < wait
  wait-positive {completed = completed} ws k i s b sound e =
      let moved = unwaited-set ws k _ (waited s b) e in
      let most = count_true-le completed in
      let b = sound.balance in let n = sound.flags in omega arith

  pub done_waits :
      {file : List ℕ} {completed : List Bool} {queue : List ℕ} {wait : ℕ} (ws : List Worker)
      (k i : ℕ) (s : Session) (b : List ℕ)
      → IsSound file completed queue wait ws
      → At ws k (signalled i s b)
      → IsSound file completed queue (wait - 1) (set ws k (waited s b))
  done_waits {file = file} {wait = wait} ws k i s b sound e = record {
    size = sound.size;
    flags = sound.flags;
    on_disk = sound.on_disk;
    queued = sound.queued;
    each = All-set (WorkerSound file) ws k _ sound.each tt;
    balance =
        let moved = unwaited-set ws k _ (waited s b) e in
        let positive = wait-positive ws k i s b sound e in let b = sound.balance in omega arith;
  }
