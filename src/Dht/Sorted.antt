-- ===== src/Dht/Sorted.antt =====
-- Which candidates a batch takes: the nearest of those not yet queried.
use bit_torrent.Dht.{
  seeds, bootstrap_addrs, Candidate, Shared, less, queried_now, add_nodes, join_nodes, mark_batch,
  take_batch, add_peers, start_lookup, alpha, max_candidates,
}
use bit_torrent.Tracker.{Peer}
use bit_torrent.Dht.Known.{mark_batch-cases}
use bit_torrent.Dht.Lookup.{Round, Reach}
use bit_torrent.Base.{
  ℕ, zero, suc, List, [], ◌∷◌, ◌-◌, ◌≡◌, true, false, ltb, length, take, take-All, All, All-map,
  if◌then◌else◌, ◌⊎◌, inl, inr, Bool-cases, refl, sym, subst,
}

-- No candidate is nearer than one before it.
abbrev pub IsSorted : List Candidate → Type 0
IsSorted [] = Unit {0}
IsSorted (c ∷ cs) = All (λ d. less d c ≡ false) cs × IsSorted cs

-- Each is marked or not nearer.
abbrev pub AreBeyond : Candidate → List Candidate → Type 0
AreBeyond b ds = All (λ d. (d.queried ≡ true) ⊎ (less d b ≡ false)) ds

less-queried_now : (d c : Candidate) → less d c ≡ false → less d (queried_now c) ≡ false
unfolding less
less-queried_now d c h = h

mark_batch-All :
    (c : Candidate) (left : ℕ) (cs : List Candidate)
    → All (λ d. less d c ≡ false) cs
    → All (λ d. less d c ≡ false) (mark_batch left cs).1
unfolding mark_batch less
mark_batch-All c left [] h = tt
mark_batch-All c left (d ∷ cs) (h, hs) = elim (mark_batch-cases left d cs) [
  | inl (q, e) ↦ turned e (h, mark_batch-All c left cs hs)
  | inr (q, inl e) ↦ turned e (h, hs)
  | inr (q, inr e) ↦ turned e (h, mark_batch-All c (left - 1) cs hs)
]
  where
    turned :
        {r t : List Candidate × List Candidate}
        → r ≡ t
        → All (λ d. less d c ≡ false) t.1
        → All (λ d. less d c ≡ false) r.1
    turned e k = subst (λ r. All (λ d. less d c ≡ false) r.1) (sym e) k

mark_batch-IsSorted :
    (left : ℕ) (cs : List Candidate) → IsSorted cs → IsSorted (mark_batch left cs).1
mark_batch-IsSorted left [] h = unfold mark_batch in tt
mark_batch-IsSorted left (c ∷ cs) (h, hs) = elim (mark_batch-cases left c cs) [
  | inl (q, e) ↦ turned e (mark_batch-All c left cs h, mark_batch-IsSorted left cs hs)
  | inr (q, inl e) ↦ turned e (same cs h, hs)
  | inr (q, inr e) ↦
      turned e (same _ (mark_batch-All c (left - 1) cs h), mark_batch-IsSorted (left - 1) cs hs)
]
  where
    turned : {r t : List Candidate × List Candidate} → r ≡ t → IsSorted t.1 → IsSorted r.1
    turned e k = subst (λ r. IsSorted r.1) (sym e) k

    same :
        (ds : List Candidate)
        → All (λ d. less d c ≡ false) ds
        → All (λ d. less d (queried_now c) ≡ false) ds
    same ds k = All-map _ _ ds (λ d g. less-queried_now d c g) k

-- What a batch leaves unmarked is not nearer than any of the batch.
pub mark_batch-AreBeyond :
    (left : ℕ) (cs : List Candidate)
    → IsSorted cs
    → All (λ b. AreBeyond b (mark_batch left cs).1) (mark_batch left cs).0
mark_batch-AreBeyond left [] h = unfold mark_batch in tt
mark_batch-AreBeyond left (c ∷ cs) (h, hs) = elim (mark_batch-cases left c cs) [
  | inl (q, e) ↦
      turned e
        (All-map _ _ (mark_batch left cs).0 (λ b g. (inl q, g)) (mark_batch-AreBeyond left cs hs))
  | inr (q, inl e) ↦ turned e ((inl refl, beyond cs h), tt)
  | inr (q, inr e) ↦ turned e (
    (inl refl, beyond (mark_batch (left - 1) cs).1 (mark_batch-All c (left - 1) cs h)),
    All-map _ _ (mark_batch (left - 1) cs).0 (λ b g. (inl refl, g))
        (mark_batch-AreBeyond (left - 1) cs hs),
  )
]
  where
    turned :
        {r t : List Candidate × List Candidate}
        → r ≡ t
        → All (λ b. AreBeyond b t.1) t.0
        → All (λ b. AreBeyond b r.1) r.0
    turned e k = subst (λ r. All (λ b. AreBeyond b r.1) r.0) (sym e) k

    beyond : (ds : List Candidate) → All (λ d. less d c ≡ false) ds → AreBeyond (queried_now c) ds
    beyond ds k = All-map _ _ ds (λ d g. inr (less-queried_now d c g)) k

take-IsSorted : (n : ℕ) (cs : List Candidate) → IsSorted cs → IsSorted (take n cs)
take-IsSorted zero cs h = tt
take-IsSorted (suc n) [] h = tt
take-IsSorted (suc n) (c ∷ cs) (h, hs) = (take-All _ n cs h, take-IsSorted n cs hs)

module _ (sort : List Candidate → List Candidate) (host_port : List ℕ → ℕ → List ℕ)
    (target : List ℕ) (max_peers : ℕ)
    (sort-IsSorted : (cs : List Candidate) → IsSorted (sort cs)) where
  add_nodes-IsSorted :
      (s : Shared) (nn : List Candidate) → IsSorted (add_nodes sort target s nn).candidates
  unfolding add_nodes
  add_nodes-IsSorted s nn =
      cut (sort (join_nodes target s.seen_addrs s.candidates nn).1) (sort-IsSorted _)
    where
      cut :
          (cs : List Candidate)
          → IsSorted cs
          → IsSorted (if ltb max_candidates (length cs) then take max_candidates cs else cs)
      cut cs h = elim (Bool-cases (ltb max_candidates (length cs))) [
        | inl e ↦ rw e (take-IsSorted max_candidates cs h)
        | inr e ↦ rw e h
      ]

  started : (ids : List (List ℕ)) → IsSorted (start_lookup sort target ids).candidates
  unfolding start_lookup
  started ids =
      add_nodes-IsSorted (record { seen_addrs = []; seen_peers = []; peers = []; candidates = [] })
        (seeds ids bootstrap_addrs)

  batched : (s : Shared) → IsSorted s.candidates → IsSorted (take_batch s).1.candidates
  unfolding take_batch
  batched s h = mark_batch-IsSorted alpha s.candidates h

  peers_added :
      (s : Shared) (pp : List Peer)
      → IsSorted s.candidates
      → IsSorted (add_peers host_port s pp).candidates
  unfolding add_peers
  peers_added s pp h = h

  Reach-IsSorted :
      {r : Round} {asked : List (List ℕ)}
      → Reach sort host_port target max_peers r asked
      → IsSorted r.shared.candidates
  Reach-IsSorted (Reach.start ids) = started ids
  Reach-IsSorted (Reach.batch {s} r some_left few) = batched s (Reach-IsSorted r)
  Reach-IsSorted (Reach.fail xs ys a r) = Reach-IsSorted r
  Reach-IsSorted (Reach.peers {s} xs ys a pp nn r) = peers_added s pp (Reach-IsSorted r)
  Reach-IsSorted (Reach.nodes {s} xs ys nn r) = add_nodes-IsSorted s nn

  -- When the sort orders by distance, then in all that a lookup reaches, what a batch leaves unmarked
  -- is not nearer to the target than any candidate of the batch.
  pub Reach-take_batch :
      {r : Round} {asked : List (List ℕ)}
      → Reach sort host_port target max_peers r asked
      → All (λ b. AreBeyond b (take_batch r.shared).1.candidates) (take_batch r.shared).0
  unfolding take_batch
  Reach-take_batch {r} h = mark_batch-AreBeyond alpha r.shared.candidates (Reach-IsSorted h)
