-- ===== src/Dht/Known.antt =====
-- The candidates of a lookup in the DHT: what the loops of `addNodes` and of a batch do with them.
use bit_torrent.Dht.{Candidate, queried_now, join_nodes, mark_batch, xor_dist}
use bit_torrent.Base.{
  ===_refl, map-append, ◌===◌, ℕ, zero, suc, List, [], ◌∷◌, ◌++◌, ◌-◌, ◌<◌, ◌≤◌, ◌≡◌, true, false,
  leb, length, take, map, has_text, IsDistinct, IsDistinct-snoc, IsDistinct-permuted,
  has_text-outside, ===_sym, All, All-append, All-map, ◌⊎◌, inl, inr, Bool-cases, refl, sym, subst,
  ap, arith,
}
use mathlib.Core.List.{Permᴰ}

abbrev pub addrs : List Candidate → List (List ℕ)
addrs cs = map (λ c. c.addr) cs

-- A candidate whose address was seen, and, unless it is marked, not asked.
abbrev pub IsKnown : List (List ℕ) → List (List ℕ) → Candidate → Type 0
IsKnown seen asked c =
    (has_text c.addr seen ≡ true) × ((c.queried ≡ true) ⊎ (has_text c.addr asked ≡ false))

-- Candidates with no address twice, all of them known.
abbrev pub AreKnown : List (List ℕ) → List (List ℕ) → List Candidate → Type 0
AreKnown seen asked cs = IsDistinct (addrs cs) × All (IsKnown seen asked) cs

All-addrs :
    (P : List ℕ → Type 0) (Q : Candidate → Type 0) (cs : List Candidate)
    → ((c : Candidate) → Q c → P (c.addr))
    → All Q cs
    → All P (addrs cs)
All-addrs P Q [] f h = tt
All-addrs P Q (c ∷ cs) f h = (f c h.0, All-addrs P Q cs f h.1)

-- A new candidate at the end.
snoc-AreKnown :
    (seen asked : List (List ℕ)) (cs : List Candidate) (c : Candidate)
    → AreKnown seen asked cs
    → All (λ a. has_text a seen ≡ true) asked
    → has_text c.addr seen ≡ false
    → AreKnown (c.addr ∷ seen) asked (cs ++ (c ∷ []))
snoc-AreKnown seen asked cs c (d, ks) k e = (
  subst IsDistinct (sym (map-append (λ c. c.addr) cs (c ∷ []))) (
      IsDistinct-snoc (addrs cs) c.addr d
        (has_text-outside seen c.addr (addrs cs) (All-addrs _ _ cs (λ c h. h.0) ks) e)),
  All-append (IsKnown (c.addr ∷ seen) asked) cs (c ∷ [])
      (All-map (IsKnown seen asked) (IsKnown (c.addr ∷ seen) asked) cs
        (λ b h. (ground (arith, h.0), h.1)) ks)
      ((ground (arith, ===_refl (c.addr)), inr (has_text-outside seen c.addr asked k e)), tt),
)

-- The loop of `addNodes` keeps what is asked among what is seen.
pub join_nodes-AreKnown :
    (target : List ℕ) (asked seen : List (List ℕ)) (cs ns : List Candidate)
    → AreKnown seen asked cs
    → All (λ a. has_text a seen ≡ true) asked
    → let r = join_nodes target seen cs ns in
      AreKnown r.0 asked r.1 × All (λ a. has_text a (r.0) ≡ true) asked
unfolding join_nodes
join_nodes-AreKnown target asked seen cs [] h k = (h, k)
join_nodes-AreKnown target asked seen cs (n ∷ ns) h k = elim (Bool-cases (has_text n.addr seen)) [
  | inl e ↦ rw e (join_nodes-AreKnown target asked seen cs ns h k)
  | inr e ↦ rw e (
      join_nodes-AreKnown target asked (n.addr ∷ seen)
        (cs
          ++ (record { id = n.id; addr = n.addr; dist = xor_dist n.id target; queried = false }
              ∷ []))
        ns
        (snoc-AreKnown seen asked cs
          (record { id = n.id; addr = n.addr; dist = xor_dist n.id target; queried = false }) h k e)
        (All-map _ _ asked (λ a g. ground (arith, g)) k))
]

take-has_text :
    (n : ℕ) (u : List ℕ) (cs : List Candidate)
    → has_text u (addrs cs) ≡ false
    → has_text u (addrs (take n cs)) ≡ false
take-has_text zero u cs h = refl
take-has_text (suc n) u [] h = refl
take-has_text (suc n) u (c ∷ cs) h = elim (Bool-cases (c.addr === u)) [
  | inl e ↦ absurd (ground (arith, e, h))
  | inr e ↦ rw e (take-has_text n u cs (ground (arith, e, h)))
]

pub take-AreKnown :
    (n : ℕ) (seen asked : List (List ℕ)) (cs : List Candidate)
    → AreKnown seen asked cs
    → AreKnown seen asked (take n cs)
take-AreKnown zero seen asked cs h = (tt, tt)
take-AreKnown (suc n) seen asked [] h = (tt, tt)
take-AreKnown (suc n) seen asked (c ∷ cs) ((new, d), (k, ks)) =
    let (e, js) = take-AreKnown n seen asked cs (d, ks) in
    ((take-has_text n c.addr cs new, e), (k, js))

All-permuted : {A : Type 0} (P : A → Type 0) {xs ys : List A} → Permᴰ xs ys → All P xs → All P ys
All-permuted P Permᴰ.nil h = tt
All-permuted P (Permᴰ.cons e p) (h, hs) = (subst P e h, All-permuted P p hs)
All-permuted P (Permᴰ.swap e f) (h, (k, hs)) = (subst P f k, (subst P e h, hs))
All-permuted P (Permᴰ.trans p q) h = All-permuted P q (All-permuted P p h)

addrs-permuted : {cs ds : List Candidate} → Permᴰ cs ds → Permᴰ (addrs cs) (addrs ds)
addrs-permuted Permᴰ.nil = Permᴰ.nil
addrs-permuted (Permᴰ.cons e p) = Permᴰ.cons (ap (λ c. c.addr) e) (addrs-permuted p)
addrs-permuted (Permᴰ.swap e f) = Permᴰ.swap (ap (λ c. c.addr) e) (ap (λ c. c.addr) f)
addrs-permuted (Permᴰ.trans p q) = Permᴰ.trans (addrs-permuted p) (addrs-permuted q)

pub permuted-AreKnown :
    (seen asked : List (List ℕ)) {cs ds : List Candidate}
    → Permᴰ cs ds
    → AreKnown seen asked cs
    → AreKnown seen asked ds
permuted-AreKnown seen asked p (d, k) =
    (IsDistinct-permuted (addrs-permuted p) d, All-permuted (IsKnown seen asked) p k)

-- What is known of the others, after one more address is asked.
apart :
    (seen asked : List (List ℕ)) (u : List ℕ) (cs : List Candidate)
    → has_text u (addrs cs) ≡ false
    → All (IsKnown seen asked) cs
    → All (IsKnown seen (u ∷ asked)) cs
apart seen asked u [] h ks = tt
apart seen asked u (c ∷ cs) h ((s, k), ks) = elim (Bool-cases (c.addr === u)) [
  | inl e ↦ absurd (ground (arith, e, h))
  | inr e ↦ ((s, other e k), apart seen asked u cs (ground (arith, e, h)) ks)
]
  where
    other :
        (c.addr === u) ≡ false
        → (c.queried ≡ true) ⊎ (has_text c.addr asked ≡ false)
        → (c.queried ≡ true) ⊎ (has_text c.addr (u ∷ asked) ≡ false)
    other e (inl q) = inl q
    other e (inr f) = inr (rw (===_sym c.addr u e) f)

-- A batch of candidates `cs`, of which it leaves `ds`.
pub record IsBatch (seen asked : List (List ℕ)) (cs b ds : List Candidate) : Type 0 where
  pub same : addrs ds ≡ addrs cs
  pub known : All (IsKnown seen (addrs b ++ asked)) ds
  pub distinct : IsDistinct (addrs b)
  pub inside : All (λ u. has_text u (addrs cs) ≡ true) (addrs b)
  pub fresh : All (λ u. (has_text u asked ≡ false) × (has_text u seen ≡ true)) (addrs b)

-- A marked candidate is passed, and another one ends the batch or does not.
pub mark_batch-cases :
    (left : ℕ) (c : Candidate) (cs : List Candidate)
    → ((c.queried ≡ true)
        × (mark_batch left (c ∷ cs) ≡ ((mark_batch left cs).0, c ∷ (mark_batch left cs).1)))
      ⊎ ((c.queried ≡ false)
          × ((mark_batch left (c ∷ cs) ≡ (queried_now c ∷ [], queried_now c ∷ cs))
              ⊎ (mark_batch left (c ∷ cs) ≡ (
                queried_now c ∷ (mark_batch (left - 1) cs).0,
                queried_now c ∷ (mark_batch (left - 1) cs).1,
              ))))
unfolding mark_batch
mark_batch-cases left c cs = elim (Bool-cases c.queried) [
  | inl q ↦ inl (q, simp q refl)
  | inr q ↦ inr (
    q,
    elim (Bool-cases (leb left 1)) [
      | inl e ↦ inl (simp (q, e) refl)
      | inr e ↦ inr (simp (q, e) refl)
    ],
  )
]

pub mark_batch-IsBatch :
    (left : ℕ) (seen asked : List (List ℕ)) (cs : List Candidate)
    → AreKnown seen asked cs
    → IsBatch seen asked cs (mark_batch left cs).0 (mark_batch left cs).1
unfolding mark_batch
mark_batch-IsBatch left seen asked [] h = record {
  same = refl;
  known = tt;
  distinct = tt;
  inside = tt;
  fresh = tt;
}
mark_batch-IsBatch left seen asked (c ∷ cs) ((new, d), ((s, k), ks)) =
    elim (mark_batch-cases left c cs) [
      | inl (q, e) ↦ rebased e (passed q (mark_batch-IsBatch left seen asked cs (d, ks)))
      | inr (q, inl e) ↦ rebased e (last (unasked q k))
      | inr (q, inr e) ↦
          rebased e (first (unasked q k) (mark_batch-IsBatch (left - 1) seen asked cs (d, ks)))
    ]
  where
    rebased :
        {r t : List Candidate × List Candidate}
        → r ≡ t
        → IsBatch seen asked (c ∷ cs) t.0 t.1
        → IsBatch seen asked (c ∷ cs) r.0 r.1
    rebased e h = subst (λ r. IsBatch seen asked (c ∷ cs) r.0 r.1) (sym e) h

    unasked :
        c.queried ≡ false
        → (c.queried ≡ true) ⊎ (has_text c.addr asked ≡ false)
        → has_text c.addr asked ≡ false
    unasked q (inl p) = absurd (ground (arith, p, q))
    unasked q (inr f) = f

    wider :
        (us : List (List ℕ))
        → All (λ u. has_text u (addrs cs) ≡ true) us
        → All (λ u. has_text u (addrs (c ∷ cs)) ≡ true) us
    wider us h = All-map _ _ us (λ u g. ground (arith, g)) h

    passed :
        {b ds : List Candidate}
        → c.queried ≡ true
        → IsBatch seen asked cs b ds
        → IsBatch seen asked (c ∷ cs) b (c ∷ ds)
    passed {b} {ds} q r = record {
      same = ap (◌∷◌ c.addr) r.same;
      known = ((s, inl q), r.known);
      distinct = r.distinct;
      inside = wider (addrs b) r.inside;
      fresh = r.fresh;
    }

    last :
        has_text c.addr asked ≡ false
        → IsBatch seen asked (c ∷ cs) (queried_now c ∷ []) (queried_now c ∷ cs)
    last f = record {
      same = refl;
      known = ((s, inl refl), apart seen asked c.addr cs new ks);
      distinct = (refl, tt);
      inside = (ground (arith, ===_refl c.addr), tt);
      fresh = ((f, s), tt);
    }

    first :
        {b ds : List Candidate}
        → has_text c.addr asked ≡ false
        → IsBatch seen asked cs b ds
        → IsBatch seen asked (c ∷ cs) (queried_now c ∷ b) (queried_now c ∷ ds)
    first {b} {ds} f r = record {
      same = ap (◌∷◌ c.addr) r.same;
      known = (
        (s, inl refl),
        apart seen (addrs b ++ asked) c.addr ds
            (subst (λ us. has_text c.addr us ≡ false) (sym r.same) new) r.known,
      );
      distinct = (has_text-outside (addrs cs) c.addr (addrs b) r.inside new, r.distinct);
      inside = (ground (arith, ===_refl c.addr), wider (addrs b) r.inside);
      fresh = ((f, s), r.fresh);
    }

-- A batch has at most so many candidates.
pub mark_batch_bounded :
    (left : ℕ) (cs : List Candidate) → 0 < left → length (mark_batch left cs).0 ≤ left
unfolding mark_batch
mark_batch_bounded left [] h = omega (arith, h)
mark_batch_bounded left (c ∷ cs) h = elim (Bool-cases c.queried) [
  | inl q ↦ rw q (mark_batch_bounded left cs h)
  | inr q ↦ rw q (elim (Bool-cases (leb left 1)) [
    | inl e ↦ rw e h
    | inr e ↦
        let more : 1 < left = ground (arith, e) in
        rw e (omega (arith, more, mark_batch_bounded (left - 1) cs (omega (arith, more))))
  ])
]

pub length-mark_batch : (left : ℕ) (cs : List Candidate) → length (mark_batch left cs).1 ≡ length cs
unfolding mark_batch
length-mark_batch left [] = refl
length-mark_batch left (c ∷ cs) = elim (Bool-cases c.queried) [
  | inl q ↦ rw q (ap suc (length-mark_batch left cs))
  | inr q ↦ rw q (elim (Bool-cases (leb left 1)) [
    | inl e ↦ rw e refl
    | inr e ↦ rw e (ap suc (length-mark_batch (left - 1) cs))
  ])
]
