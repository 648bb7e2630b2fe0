-- ===== src/Choke/Cap.antt =====
-- How many peers `DecideUnchokes` leaves unchoked.
use bit_torrent.Base.{
  ◌==◌, drop, Option-cases, inr, ◌&&◌, ===→eq, inl, ltb, length-take, ===_refl, suc, ◌===◌,
  Bool-cases, take, ◌<◌, ap, refl, ◌+◌, map, if◌then◌else◌, false, true, arith, [], ◌∷◌, ◌≡◌, ◌≤◌,
  ℕ, List, length,
}
use bit_torrent.Choke.{
  optimistic_peer, is_optimistic_round, cap_of, select, last_key, settle, PeerStats, UnchokeRound,
  contains, remove, keys, decide_unchokes,
}

contains-remove : (k : List ℕ) (ks : List (List ℕ)) → length (remove k ks) ≤ length ks
unfolding remove
contains-remove k [] = omega arith
contains-remove k (j ∷ ks) = ground (arith, contains-remove k ks)

length-remove-lt :
    (k : List ℕ) (ks : List (List ℕ)) → contains ks k ≡ true → length (remove k ks) < length ks
unfolding contains remove
length-remove-lt k [] h = cc
length-remove-lt k (j ∷ ks) h = elim (Bool-cases (j === k)) [
  | inl e ↦ rw e (omega (arith, contains-remove k ks))
  | inr e ↦ rw e (omega (arith, length-remove-lt k ks (rw (e, contains) at h)))
]

module _ {Peer : Type 0} (peer_key : Peer → List ℕ) where
  -- The map has each key once.
  abbrev pub IsDistinct : List (PeerStats Peer) → Type 0
  IsDistinct [] = Unit {0}
  IsDistinct (s ∷ ss) = (contains (keys peer_key ss) (peer_key s.peer) ≡ false) × IsDistinct ss

  unfoldable pub unchoked_count : List (PeerStats Peer) → ℕ
  unchoked_count [] = 0
  unchoked_count (s ∷ ss) = (if s.choked then 0 else 1) + unchoked_count ss

  members : List (List ℕ) → List (PeerStats Peer) → ℕ
  members set [] = 0
  members set (s ∷ ss) = (if contains set (peer_key s.peer) then 1 else 0) + members set ss

  unchoked_count-settle :
      (set : List (List ℕ)) (ss : List (PeerStats Peer))
      → unchoked_count (map (settle peer_key set) ss) ≡ members set ss
  unfolding unchoked_count members settle
  unchoked_count-settle set [] = refl
  unchoked_count-settle set (s ∷ ss) = ground (arith, unchoked_count-settle set ss)

  hits : List ℕ → List (PeerStats Peer) → ℕ
  hits k [] = 0
  hits k (s ∷ ss) = (if k === peer_key s.peer then 1 else 0) + hits k ss

  hits-none :
      (k : List ℕ) (ss : List (PeerStats Peer))
      → contains (keys peer_key ss) k ≡ false
      → hits k ss ≡ 0
  unfolding hits contains keys
  hits-none k [] h = refl
  hits-none k (s ∷ ss) h = elim (Bool-cases (k === peer_key s.peer)) [
    | inl e ↦ absurd (cc (===→eq k (peer_key s.peer) e, ===_refl k, h_false))
    | inr e ↦ rw e (omega (arith, hits-none k ss (ground arith)))
  ]
    where
      h_false : (peer_key s.peer === k) ≡ false
      h_false = ground arith

  hits-le-one : (k : List ℕ) (ss : List (PeerStats Peer)) → IsDistinct ss → hits k ss ≤ 1
  unfolding hits
  hits-le-one k [] d = omega arith
  hits-le-one k (s ∷ ss) d = elim (Bool-cases (k === peer_key s.peer)) [
    | inl e ↦
        let same = ===→eq k (peer_key s.peer) e in
        rw e (omega (arith, hits-none k ss (rw same d.0)))
    | inr e ↦ rw e (omega (arith, hits-le-one k ss d.1))
  ]

  members-cons :
      (k : List ℕ) (set : List (List ℕ)) (ss : List (PeerStats Peer))
      → members (k ∷ set) ss ≤ hits k ss + members set ss
  unfolding members hits contains
  members-cons k set [] = omega arith
  members-cons k set (s ∷ ss) = ground (arith, members-cons k set ss)

  members-nil : (ss : List (PeerStats Peer)) → members [] ss ≡ 0
  unfolding members contains
  members-nil [] = refl
  members-nil (s ∷ ss) = omega (arith, members-nil ss)

  -- A set of keys cannot pick more entries than it has keys.
  members-le :
      (set : List (List ℕ)) (ss : List (PeerStats Peer))
      → IsDistinct ss
      → members set ss ≤ length set
  members-le [] ss d = omega (arith, members-nil ss)
  members-le (k ∷ set) ss d =
      omega (arith, members-cons k set ss, hits-le-one k ss d, members-le set ss d)

  length-keys : (ss : List (PeerStats Peer)) → length (keys peer_key ss) ≡ length ss
  unfolding keys
  length-keys [] = refl
  length-keys (s ∷ ss) = ap suc (length-keys ss)

  contains-last : (ks : List (List ℕ)) → 0 < length ks → contains ks (last_key peer_key ks) ≡ true
  unfolding contains last_key
  contains-last [] h = absurd (omega arith)
  contains-last (k ∷ []) h = ground (arith, ===_refl k)
  contains-last (k ∷ (j ∷ js)) h = ground (arith, contains-last (j ∷ js) (omega arith))

  -- The selection is never larger than the limit.
  length-select :
      (ur : UnchokeRound Peer) (round : ℕ) (active : List (PeerStats Peer)) (limit : ℕ)
      → length (select peer_key ur round active limit).0 ≤ limit
  unfolding select
  length-select ur round active limit =
      let top = keys peer_key (take limit active) in
      let size = length-keys (take limit active) in
      let cut = length-take limit active in
      elim (Bool-cases (
        ltb 0 limit
        && is_optimistic_round peer_key ur.optimistic_interval round
        && ltb limit (length active))) [
          | inr plain ↦ rw plain (omega (arith, size, cut))
          | inl opt ↦
              let nonempty : 0 < length top = ground arith in
              let fewer =
                length-remove-lt (last_key peer_key top) top (contains-last top nonempty) in
              elim (Option-cases
                (optimistic_peer peer_key ur.last_optimistic (drop limit active))) [
                  | inl e ↦ rw (opt, e, select) (omega (arith, size, cut))
                  | inr (o, e) ↦ rw (opt, e, select) (omega (arith, size, cut, fewer))
                ]
        ]

  unchoked_count-none : (ss : List (PeerStats Peer)) → length ss ≡ 0 → unchoked_count ss ≡ 0
  unfolding unchoked_count
  unchoked_count-none [] h = refl
  unchoked_count-none (s ∷ ss) h = absurd (omega arith)

  smaller : (n cap : ℕ) → (if ltb n cap then n else cap) ≤ cap
  smaller n cap = ground arith

  -- A round leaves no more peers unchoked than `MaxUnchoked`, and none if that is negative: an
  -- optimistic unchoke takes the place of another one.
  pub decide_unchokes_cap :
      (sort : List (PeerStats Peer) → List (PeerStats Peer)) (ur : UnchokeRound Peer)
      → IsDistinct ur.peers
      → unchoked_count (decide_unchokes peer_key sort ur).0.peers ≤ cap_of peer_key ur.max_unchoked
  unfolding decide_unchokes unchoked_count
  decide_unchokes_cap sort ur d =
      let cap = cap_of peer_key ur.max_unchoked in
      let active = sort ur.peers in
      let limit = if ltb (length active) cap then length active else cap in
      let chosen = (select peer_key ur (ur.round_number + 1) active limit).0 in
      elim (Bool-cases (length ur.peers == 0)) [
        | inl e ↦ rw e (omega (arith, unchoked_count-none ur.peers (ground arith)))
        | inr e ↦ rw e (
            omega (
              arith,
              unchoked_count-settle chosen ur.peers,
              members-le chosen ur.peers d,
              length-select ur (ur.round_number + 1) active limit,
              smaller (length active) cap,
            ))
      ]
