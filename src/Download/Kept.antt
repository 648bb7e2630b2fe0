-- ===== src/Download/Kept.antt =====
-- Where a piece is while the goroutines take their steps: marked, in the queue, or with a worker.
use bit_torrent.Download.Workers.{All-At}
use bit_torrent.Download.Sound.{IsSound, Sound, WorkerSound}
use bit_torrent.Download.{
  At, Worker, Download, Step, Session, marked, signalled, idle, trying, downloading, writing,
  written, waited, requeueing, stopped, skip, take, retire, connect, reuse, give_up, receive,
  cancel, fail, crash, write, write_fails, mark, late, signal, done, count, requeue, drop_piece,
  stop, stop_trying, inject, discover, acquire, dial_fails, dialled, give_back, finish, time_out,
}
use bit_torrent.Pieces.Torrent.{TorrentInfo}
use bit_torrent.Base.{
  subst, Option, ◌∷◌, [], ◌≡◌, ◌<◌, ℕ, List, false, true, Bool, set, get_or, length, arith, refl,
  suc, zero, ◌⊎◌, inl, inr, ◌++◌, ap, ◌∙◌, Any, Any-set, Any-put, Any-append,
}

-- The piece that a worker has, until it marks it or puts it back.
abbrev pub Carries : ℕ → Worker → Type 0
Carries p (idle s) = ⊥
Carries p (trying i n s) = p ≡ i
Carries p (downloading i n s) = p ≡ i
Carries p (writing i n s b) = p ≡ i
Carries p (written i s b) = p ≡ i
Carries p (marked i s b) = ⊥
Carries p (signalled i s b) = ⊥
Carries p (waited s b) = ⊥
Carries p (requeueing i s) = p ≡ i
Carries p stopped = ⊥

abbrev pub IsStopped : Worker → Type 0
IsStopped (idle s) = ⊥
IsStopped (trying i n s) = ⊥
IsStopped (downloading i n s) = ⊥
IsStopped (writing i n s b) = ⊥
IsStopped (written i s b) = ⊥
IsStopped (marked i s b) = ⊥
IsStopped (signalled i s b) = ⊥
IsStopped (waited s b) = ⊥
IsStopped (requeueing i s) = ⊥
IsStopped stopped = Unit {0}

-- Where piece `p` is.
pub data Kept (p : ℕ) (completed : List Bool) (queue : List ℕ) (ws : List Worker) (cancelled : Bool)
    : Type 0 where
  flagged : get_or completed p false ≡ true → Kept p completed queue ws cancelled
  queued : Any (λ i. p ≡ i) queue → Kept p completed queue ws cancelled
  carried : Any (Carries p) ws → Kept p completed queue ws cancelled
  ended : Any IsStopped ws → Kept p completed queue ws cancelled
  over : cancelled ≡ true → Kept p completed queue ws cancelled

get_or-set_stays :
    (bs : List Bool) (i p : ℕ) → get_or bs p false ≡ true → get_or (set bs i true) p false ≡ true
get_or-set_stays [] i p e = e
get_or-set_stays (b ∷ bs) zero zero e = refl
get_or-set_stays (b ∷ bs) zero (suc p) e = e
get_or-set_stays (b ∷ bs) (suc i) zero e = e
get_or-set_stays (b ∷ bs) (suc i) (suc p) e = get_or-set_stays bs i p e

get_or-set_self : (bs : List Bool) (i : ℕ) → i < length bs → get_or (set bs i true) i false ≡ true
get_or-set_self [] i h = absurd (omega arith)
get_or-set_self (b ∷ bs) zero h = refl
get_or-set_self (b ∷ bs) (suc i) h = get_or-set_self bs i (omega arith)

module _ {p : ℕ} {x : Bool} where
  goes :
      {completed : List Bool} {queue : List ℕ} (ws : List Worker) (k : ℕ) (w w' : Worker)
      → Kept p completed queue ws x
      → At ws k w
      → (Carries p w → Kept p completed queue (set ws k w') x)
      → (IsStopped w → ⊥)
      → Kept p completed queue (set ws k w') x
  goes ws k w w' (flagged e) at f g = flagged e
  goes ws k w w' (queued h) at f g = queued h
  goes ws k w w' (carried h) at f g = elim (Any-set (Carries p) ws k w w' h at) [
    | inl it ↦ f it
    | inr rest ↦ carried rest
  ]
  goes ws k w w' (ended h) at f g = elim (Any-set IsStopped ws k w w' h at) [
    | inl it ↦ absurd (g it)
    | inr rest ↦ ended rest
  ]
  goes ws k w w' (over e) at f g = over e

  -- The head of the queue is looked at.
  shifts :
      {completed : List Bool} {ws : List Worker} (queue q : List ℕ) (i : ℕ)
      → Kept p completed queue ws x
      → queue ≡ i ∷ q
      → (p ≡ i) ⊎ Kept p completed q ws x
  shifts queue q i (flagged e) head = inr (flagged e)
  shifts queue q i (queued h) head = elim (subst (Any (λ i. p ≡ i)) head h) [
    | inl e ↦ inl e
    | inr rest ↦ inr (queued rest)
  ]
  shifts queue q i (carried h) head = inr (carried h)
  shifts queue q i (ended h) head = inr (ended h)
  shifts queue q i (over e) head = inr (over e)

  dropped :
      {completed : List Bool} {ws : List Worker} (queue q : List ℕ) (i : ℕ)
      → Kept p completed queue ws x
      → queue ≡ i ∷ q
      → get_or completed i false ≡ true
      → Kept p completed q ws x
  dropped {completed = completed} queue q i s head old = elim (shifts queue q i s head) [
    | inl e ↦ flagged (ap (λ j. get_or completed j false) e ∙ old)
    | inr rest ↦ rest
  ]

  taken :
      {completed : List Bool} (queue q : List ℕ) (ws : List Worker) (k i n : ℕ)
      (s s' : Option Session)
      → Kept p completed queue ws x
      → queue ≡ i ∷ q
      → At ws k (idle s)
      → Kept p completed q (set ws k (trying i n s')) x
  taken queue q ws k i n s s' kept head at = elim (shifts queue q i kept head) [
    | inl e ↦ carried (Any-put (Carries p) ws k _ (trying i n s') at e)
    | inr rest ↦ goes ws k _ _ rest at (λ h. absurd h) (λ h. h)
  ]

  joins :
      {completed : List Bool} {queue : List ℕ} {ws : List Worker} (more : List ℕ)
      → Kept p completed queue ws x
      → Kept p completed (queue ++ more) ws x
  joins more (flagged e) = flagged e
  joins {queue = queue} more (queued h) = queued (Any-append (λ i. p ≡ i) queue more (inl h))
  joins more (carried h) = carried h
  joins more (ended h) = ended h
  joins more (over e) = over e

  put_back :
      {completed : List Bool} {queue : List ℕ} (ws : List Worker) (k i : ℕ) (s : Option Session)
      → Kept p completed queue ws x
      → At ws k (requeueing i s)
      → Kept p completed (queue ++ (i ∷ [])) (set ws k (idle s)) x
  put_back {queue = queue} ws k i s kept at =
      goes ws k _ _ (joins (i ∷ []) kept) at
        (λ h. queued (Any-append (λ i. p ≡ i) queue (i ∷ []) (inr (inl h)))) (λ h. h)

  more_flags :
      {queue : List ℕ} {ws : List Worker} (completed : List Bool) (i : ℕ)
      → Kept p completed queue ws x
      → Kept p (set completed i true) queue ws x
  more_flags completed i (flagged e) = flagged (get_or-set_stays completed i p e)
  more_flags completed i (queued h) = queued h
  more_flags completed i (carried h) = carried h
  more_flags completed i (ended h) = ended h
  more_flags completed i (over e) = over e

  marks-Kept :
      {queue : List ℕ} (completed : List Bool) (ws : List Worker) (k i : ℕ) (s s' : Session)
      (b : List ℕ)
      → Kept p completed queue ws x
      → At ws k (written i s b)
      → i < length completed
      → Kept p (set completed i true) queue (set ws k (marked i s' b)) x
  marks-Kept completed ws k i s s' b kept at h =
      goes ws k _ _ (more_flags completed i kept) at
        (λ e.
          flagged
            (ap (λ j. get_or (set completed i true) j false) e ∙ get_or-set_self completed i h))
        (λ h. h)

module _ (sha1 : List ℕ → List ℕ) (t : TorrentInfo) where
  written-inside :
      {file : List ℕ} {completed : List Bool} {queue : List ℕ} {wait : ℕ} (ws : List Worker)
      (k i : ℕ) (s : Session) (b : List ℕ)
      → IsSound sha1 t file completed queue wait ws
      → At ws k (written i s b)
      → i < length completed
  written-inside {file = file} ws k i s b sound at =
      let (h, it) = All-At (WorkerSound sha1 t file) ws k _ sound.each at in
      let n = sound.flags in omega arith

  module _ {Peer : Type 0} where
    abbrev pub IsKept : ℕ → Download Peer → Type 0
    IsKept p d = Kept p d.completed d.queue d.workers d.cancelled

    pub step-Kept :
        (p : ℕ) (d e : Download Peer) → Sound sha1 t d → IsKept p d → Step sha1 t d e → IsKept p e
    step-Kept p d _ sound s (skip k i q w at head old) = dropped d.queue q i s head old
    step-Kept p d _ sound s (take k i q w at head new) =
        taken d.queue q d.workers k i 0 w w s head at
    step-Kept p d _ sound s (retire k i n w at few many) =
        goes d.workers k _ _ s at (λ h. carried (Any-put (Carries p) d.workers k _ _ at h)) (λ h. h)
    step-Kept p d _ sound s (connect k i n w r at few head) =
        goes d.workers k _ _ s at (λ h. carried (Any-put (Carries p) d.workers k _ _ at h)) (λ h. h)
    step-Kept p d _ sound s (reuse k i n w at few less) =
        goes d.workers k _ _ s at (λ h. carried (Any-put (Carries p) d.workers k _ _ at h)) (λ h. h)
    step-Kept p d _ sound s (give_up k i w at) =
        goes d.workers k _ _ s at (λ h. carried (Any-put (Carries p) d.workers k _ _ at h)) (λ h. h)
    step-Kept p d _ sound s (receive k i n w w' events b at r got key same) =
        goes d.workers k _ _ s at (λ h. carried (Any-put (Carries p) d.workers k _ _ at h)) (λ h. h)
    step-Kept p d _ sound s (cancel k i n w w' events sent at got key same) =
        goes d.workers k _ _ s at (λ h. carried (Any-put (Carries p) d.workers k _ _ at h)) (λ h. h)
    step-Kept p d _ sound s (fail k i n now w events f class sent at got cl) =
        goes d.workers k _ _ s at (λ h. carried (Any-put (Carries p) d.workers k _ _ at h)) (λ h. h)
    step-Kept p d _ sound s (crash k i n w events at got) =
        ended (Any-put IsStopped d.workers k _ _ at tt)
    step-Kept p d _ sound s (write k i n w b file' at wrote) =
        goes d.workers k _ _ s at (λ h. carried (Any-put (Carries p) d.workers k _ _ at h)) (λ h. h)
    step-Kept p d _ sound s (write_fails k i n now w b at) =
        goes d.workers k _ _ s at (λ h. carried (Any-put (Carries p) d.workers k _ _ at h)) (λ h. h)
    step-Kept p d _ sound s (mark k i now latency w b at new) =
        marks-Kept d.completed d.workers k i w _ b s at (written-inside d.workers k i w b sound at)
    step-Kept p d _ sound s (late k i latency w b at old) =
        goes d.workers k _ _ s at (λ h. flagged (ap (λ j. get_or d.completed j false) h ∙ old))
          (λ h. h)
    step-Kept p d _ sound s (signal k i w b at) = goes d.workers k _ _ s at (λ h. absurd h) (λ h. h)
    step-Kept p d _ sound s (done k i w b at) = goes d.workers k _ _ s at (λ h. absurd h) (λ h. h)
    step-Kept p d _ sound s (count k w b at) = goes d.workers k _ _ s at (λ h. absurd h) (λ h. h)
    step-Kept p d _ sound s (requeue k i w at room) = put_back d.workers k i w s at
    step-Kept p d _ sound s (drop_piece k i w at over_now) = over over_now
    step-Kept p d _ sound s (stop k w at now_over) = ended (Any-put IsStopped d.workers k _ _ at tt)
    step-Kept p d _ sound s (stop_trying k i n at now_over) =
        ended (Any-put IsStopped d.workers k _ _ at tt)
    step-Kept p d _ sound s (inject j begun h new room) = joins (j ∷ []) s
    step-Kept p d _ sound s (discover usable key peer) = s
    step-Kept p d _ sound s (acquire now x held ready) = s
    step-Kept p d _ sound s (dial_fails key class now h) = s
    step-Kept p d _ sound s (dialled w h room) = s
    step-Kept p d _ sound s (give_back key h x) = s
    step-Kept p d _ sound s (finish e) = over refl
    step-Kept p d _ sound s time_out = over refl
