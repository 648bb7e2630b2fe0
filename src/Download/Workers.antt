-- ===== src/Download/Workers.antt =====
-- The workers as a list: a property of each of them, how many have marked a piece that they have not
-- yet taken off `pieceWG`, and the flags of the pieces.
use mathlib.Core.Option.{some-injective}
use bit_torrent.Pieces.Resume.{count_true}
use bit_torrent.Download.{
  At, Worker, marked, signalled, idle, trying, downloading, writing, written, waited, requeueing,
  stopped,
}
use bit_torrent.Base.{
  ap, subst, ◌∷◌, ◌+◌, [], ◌≡◌, ◌<◌, ◌≤◌, ℕ, List, false, true, Bool, none, set, get_or, All,
  length, replicate, arith, refl, suc, zero, ◌⊎◌, inl, inr,
}

module _ {A : Type 0} where
  pub All-At : (P : A → Type 0) (xs : List A) (k : ℕ) (x : A) → All P xs → At xs k x → P x
  All-At P [] k x h e = absurd (ground arith)
  All-At P (y ∷ ys) zero x h e = subst P (some-injective _ _ e) h.0
  All-At P (y ∷ ys) (suc k) x h e = All-At P ys k x h.1 e

  pub All-set : (P : A → Type 0) (xs : List A) (k : ℕ) (v : A) → All P xs → P v → All P (set xs k v)
  All-set P [] k v h p = h
  All-set P (x ∷ xs) zero v h p = (p, h.1)
  All-set P (x ∷ xs) (suc k) v h p = (h.0, All-set P xs k v h.1 p)

  pub All-replicate : (P : A → Type 0) (n : ℕ) (x : A) → P x → All P (replicate n x)
  All-replicate P zero x p = tt
  All-replicate P (suc n) x p = (p, All-replicate P n x p)

abbrev pub pending : Worker → ℕ
pending (idle s) = 0
pending (trying i n s) = 0
pending (downloading i n s) = 0
pending (writing i n s b) = 0
pending (written i s b) = 0
pending (marked i s b) = 1
pending (signalled i s b) = 1
pending (waited s b) = 0
pending (requeueing i s) = 0
pending stopped = 0

-- The workers that have marked a piece and not yet called `pieceWG.Done`.
unfoldable pub unwaited : List Worker → ℕ
unwaited [] = 0
unwaited (w ∷ ws) = pending w + unwaited ws

pub unwaited-set :
    (ws : List Worker) (k : ℕ) (w w' : Worker)
    → At ws k w
    → unwaited (set ws k w') + pending w ≡ unwaited ws + pending w'
unfolding unwaited
unwaited-set [] k w w' e = absurd (ground arith)
unwaited-set (x ∷ xs) zero w w' e = let same = ap pending (some-injective _ _ e) in omega arith
unwaited-set (x ∷ xs) (suc k) w w' e = let ih = unwaited-set xs k w w' e in omega arith

pub unwaited-replicate : (n : ℕ) → unwaited (replicate n (idle none)) ≡ 0
unfolding unwaited
unwaited-replicate zero = refl
unwaited-replicate (suc n) = omega (arith, unwaited-replicate n)

pub count_true-set :
    (bs : List Bool) (i : ℕ)
    → i < length bs
    → get_or bs i false ≡ false
    → count_true (set bs i true) ≡ suc (count_true bs)
unfolding count_true
count_true-set [] i h e = absurd (omega arith)
count_true-set (b ∷ bs) zero h e = ground arith
count_true-set (b ∷ bs) (suc i) h e = let ih = count_true-set bs i (omega arith) e in omega arith

pub get_or-set :
    (bs : List Bool) (i j : ℕ)
    → get_or (set bs i true) j false ≡ true
    → (j ≡ i) ⊎ (get_or bs j false ≡ true)
get_or-set [] i j e = inr e
get_or-set (b ∷ bs) zero zero e = inl refl
get_or-set (b ∷ bs) zero (suc j) e = inr e
get_or-set (b ∷ bs) (suc i) zero e = inr e
get_or-set (b ∷ bs) (suc i) (suc j) e = elim (get_or-set bs i j e) [
  | inl h ↦ inl (ap suc h)
  | inr h ↦ inr h
]

pub count_true-all :
    (bs : List Bool) (i : ℕ) → length bs ≤ count_true bs → i < length bs → get_or bs i false ≡ true
unfolding count_true
count_true-all [] i h k = absurd (omega arith)
count_true-all (b ∷ bs) zero h k = ground (arith, bit_torrent.Pieces.Resume.count_true-le bs)
count_true-all (b ∷ bs) (suc i) h k =
    count_true-all bs i (ground (arith, bit_torrent.Pieces.Resume.count_true-le bs)) (omega arith)
