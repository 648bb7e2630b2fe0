-- ===== src/Dht/Lookup.antt =====
-- The lookup of `GetPeers` as steps, with the goroutines of a round in any order, and what holds of all
-- that the goroutines share.
use bit_torrent.Dht.{
  seeds, bootstrap_addrs, alpha, max_candidates, join_nodes, join_peers, mark_batch, Candidate,
  Shared, add_nodes, add_peers, take_batch, start_lookup,
}
use mathlib.Core.List.{Permᴰ}
use bit_torrent.Dht.Known.{
  addrs, AreKnown, join_nodes-AreKnown, take-AreKnown, permuted-AreKnown, mark_batch-IsBatch,
  mark_batch_bounded, length-mark_batch,
}
use bit_torrent.Tracker.{Peer}
use bit_torrent.Base.{
  ◌≤◌, ◌≡◌, true, ltb, take, map, map-append, has_text, IsDistinct, IsDistinct-snoc,
  IsDistinct-append, has_text-outside, ===_refl, if◌then◌else◌, All, All-append, All-map, inl, inr,
  Bool-cases, ltb_false→le, length-take, length-append, sym, subst, ap, suc, refl, arith, ℕ, List,
  [], ◌∷◌, ◌++◌, ◌<◌, length,
}

length-addrs : (cs : List Candidate) → length (addrs cs) ≡ length cs
length-addrs [] = refl
length-addrs (c ∷ cs) = ap suc (length-addrs cs)

-- What is shared, the addresses whose goroutines wait for an answer, and the nodes that goroutines
-- have yet to add.
pub record Round : Type 0 where
  pub shared : Shared
  pub in_flight : List (List ℕ)
  pub to_add : List (List Candidate)

module _ (sort : List Candidate → List Candidate) (host_port : List ℕ → ℕ → List ℕ)
    (target : List ℕ) (max_peers : ℕ) where
  -- The rounds that a lookup reaches, with the addresses queried so far.
  pub data Reach : Round → List (List ℕ) → Type 0 where
    start :
        (ids : List (List ℕ))
        → Reach (record { shared = start_lookup sort target ids; in_flight = []; to_add = [] }) []
    batch :
        {s : Shared} {asked : List (List ℕ)}
        → Reach (record { shared = s; in_flight = []; to_add = [] }) asked
        → 0 < length (take_batch s).0
        → length s.peers < max_peers
        → Reach
            (record { shared = (take_batch s).1; in_flight = addrs (take_batch s).0; to_add = [] })
            (addrs (take_batch s).0 ++ asked)
    fail :
        {s : Shared} {to_add : List (List Candidate)} {asked : List (List ℕ)}
        (xs ys : List (List ℕ)) (a : List ℕ)
        → Reach (record { shared = s; in_flight = xs ++ (a ∷ ys); to_add = to_add }) asked
        → Reach (record { shared = s; in_flight = xs ++ ys; to_add = to_add }) asked
    peers :
        {s : Shared} {to_add : List (List Candidate)} {asked : List (List ℕ)}
        (xs ys : List (List ℕ)) (a : List ℕ) (pp : List Peer) (nn : List Candidate)
        → Reach (record { shared = s; in_flight = xs ++ (a ∷ ys); to_add = to_add }) asked
        → Reach
            (record {
              shared = add_peers host_port s pp;
              in_flight = xs ++ ys;
              to_add = nn ∷ to_add;
            })
            asked
    nodes :
        {s : Shared} {in_flight : List (List ℕ)} {asked : List (List ℕ)}
        (xs ys : List (List Candidate)) (nn : List Candidate)
        → Reach (record { shared = s; in_flight = in_flight; to_add = xs ++ (nn ∷ ys) }) asked
        → Reach
            (record {
              shared = add_nodes sort target s nn;
              in_flight = in_flight;
              to_add = xs ++ ys;
            })
            asked

  -- Peers whose keys differ, and whose keys were all seen.
  abbrev pub ArePeers : List (List ℕ) → List Peer → Type 0
  ArePeers seen ps =
      IsDistinct (map (λ p. host_port p.ip p.port) ps)
      × All (λ p. has_text (host_port p.ip p.port) seen ≡ true) ps

  -- No address is asked twice, each that is asked was seen, the candidates are known, have no address
  -- twice and are not too many, and no peer is there twice.
  abbrev pub IsSound : Shared → List (List ℕ) → Type 0
  IsSound s asked =
      IsDistinct asked
      × All (λ a. has_text a s.seen_addrs ≡ true) asked
      × AreKnown s.seen_addrs asked s.candidates
      × (length s.candidates ≤ max_candidates)
      × ArePeers s.seen_peers s.peers

  All-keys :
      (seen : List (List ℕ)) (ps : List Peer)
      → All (λ p. has_text (host_port p.ip p.port) seen ≡ true) ps
      → All (λ u. has_text u seen ≡ true) (map (λ p. host_port p.ip p.port) ps)
  All-keys seen [] h = tt
  All-keys seen (p ∷ ps) h = (h.0, All-keys seen ps h.1)

  join_peers-ArePeers :
      (seen : List (List ℕ)) (ps pp : List Peer)
      → ArePeers seen ps
      → let r = join_peers host_port seen ps pp in ArePeers r.0 r.1
  unfolding join_peers
  join_peers-ArePeers seen ps [] h = h
  join_peers-ArePeers seen ps (p ∷ pp) (d, h) =
      let key = host_port p.ip p.port in
      elim (Bool-cases (has_text key seen)) [
        | inl e ↦ rw e (join_peers-ArePeers seen ps pp (d, h))
        | inr e ↦ rw e (
            join_peers-ArePeers (key ∷ seen) (ps ++ (p ∷ [])) pp (
              subst IsDistinct (sym (map-append (λ p. host_port p.ip p.port) ps (p ∷ [])))
                  (IsDistinct-snoc _ key d (has_text-outside seen key _ (All-keys seen ps h) e)),
              All-append _ ps (p ∷ []) (All-map _ _ ps (λ q g. ground (arith, g)) h)
                  (ground (arith, ===_refl key), tt),
            ))
      ]

  module _ (sort-Permᴰ : (cs : List Candidate) → Permᴰ cs (sort cs)) where
    add_nodes-IsSound :
        (s : Shared) (nn : List Candidate) (asked : List (List ℕ))
        → IsSound s asked
        → IsSound (add_nodes sort target s nn) asked
    unfolding add_nodes
    add_nodes-IsSound s nn asked (d, a, k, l, p) =
        let joined = join_nodes target s.seen_addrs s.candidates nn in
        let (known, among) = join_nodes-AreKnown target asked s.seen_addrs s.candidates nn k a in
        let sorted = permuted-AreKnown joined.0 asked (sort-Permᴰ joined.1) known in
        (d, among, cut joined.0 asked (sort joined.1) sorted, short (sort joined.1), p)
      where
        cut :
            (seen asked : List (List ℕ)) (cs : List Candidate)
            → AreKnown seen asked cs
            → AreKnown seen asked
                (if ltb max_candidates (length cs) then take max_candidates cs else cs)
        cut seen asked cs h = elim (Bool-cases (ltb max_candidates (length cs))) [
          | inl e ↦ rw e (take-AreKnown max_candidates seen asked cs h)
          | inr e ↦ rw e h
        ]

        short :
            (cs : List Candidate)
            → length (if ltb max_candidates (length cs) then take max_candidates cs else cs)
              ≤ max_candidates
        short cs = elim (Bool-cases (ltb max_candidates (length cs))) [
          | inl e ↦ rw e (omega (arith, length-take max_candidates cs))
          | inr e ↦ rw e (ltb_false→le max_candidates (length cs) e)
        ]

    add_peers-IsSound :
        (s : Shared) (pp : List Peer) (asked : List (List ℕ))
        → IsSound s asked
        → IsSound (add_peers host_port s pp) asked
    unfolding add_peers
    add_peers-IsSound s pp asked (d, a, k, l, p) =
        (d, a, k, l, join_peers-ArePeers s.seen_peers s.peers pp p)

    take_batch-IsSound :
        (s : Shared) (asked : List (List ℕ))
        → IsSound s asked
        → IsSound (take_batch s).1 (addrs (take_batch s).0 ++ asked)
    unfolding take_batch
    take_batch-IsSound s asked (d, a, k, l, p) =
        let r = mark_batch-IsBatch alpha s.seen_addrs asked s.candidates k in
        let b = addrs (mark_batch alpha s.candidates).0 in
        (
          IsDistinct-append b asked r.distinct d (All-map _ _ b (λ u h. h.0) r.fresh),
          All-append _ b asked (All-map _ _ b (λ u h. h.1) r.fresh) a,
          (subst IsDistinct (sym r.same) k.0, r.known),
          subst (λ n. n ≤ max_candidates) (sym (length-mark_batch alpha s.candidates)) l,
          p,
        )

    -- When the sort permutes, in all that a lookup reaches: no address was asked twice, each that was
    -- asked was seen, the candidates have no address twice and are at most two hundred, one that is not
    -- marked was not asked, no two peers have one key, and at most three goroutines wait.
    pub Reach-IsSound :
        {r : Round} {asked : List (List ℕ)}
        → Reach r asked
        → IsSound r.shared asked × (length r.in_flight ≤ alpha)
    Reach-IsSound (Reach.start ids) = (
      unfold start_lookup in
          add_nodes-IsSound
            (record { seen_addrs = []; seen_peers = []; peers = []; candidates = [] })
            (seeds ids bootstrap_addrs) [] (tt, tt, (tt, tt), omega arith, (tt, tt)),
      omega arith,
    )
    Reach-IsSound (Reach.batch {s} {asked} r some_left few) = (
      take_batch-IsSound s asked (Reach-IsSound r).0,
      unfold take_batch in
          (subst (λ n. n ≤ alpha) (sym (length-addrs _))
            (mark_batch_bounded alpha s.candidates (omega arith))),
    )
    Reach-IsSound (Reach.fail xs ys a r) =
        let (h, l) = Reach-IsSound r in
        (h, omega (arith, l, length-append xs (a ∷ ys), length-append xs ys))
    Reach-IsSound (Reach.peers {s} {to_add} {asked} xs ys a pp nn r) =
        let (h, l) = Reach-IsSound r in
        (
          add_peers-IsSound s pp asked h,
          omega (arith, l, length-append xs (a ∷ ys), length-append xs ys),
        )
    Reach-IsSound (Reach.nodes {s} {in_flight} {asked} xs ys nn r) =
        let (h, l) = Reach-IsSound r in (add_nodes-IsSound s nn asked h, l)
