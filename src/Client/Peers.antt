-- ===== src/Client/Peers.antt =====
-- `dedupePeers`: which peers are kept.
use bit_torrent.Client.{dedupe_from, dedupe_peers}
use bit_torrent.Base.{
  IsDistinct, ===_sym, has_text, subst, ℕ, List, [], ◌∷◌, ◌≡◌, Bool, true, false, ◌===◌, ===_refl,
  All, Any, ◌⊎◌, inl, inr, Bool-cases, refl, arith,
}

module _ {Peer : Type 0} (usable : Peer → Bool) (key : Peer → List ℕ) where
  abbrev pub keys : List Peer → List (List ℕ)
  keys [] = []
  keys (p ∷ ps) = key p ∷ keys ps

  -- What the loop does with a peer.
  dedupe-cases :
      (seen : List (List ℕ)) (p : Peer) (ps : List Peer)
      → (((usable p ≡ false) ⊎ (has_text (key p) seen ≡ true))
          × (dedupe_from usable key seen (p ∷ ps) ≡ dedupe_from usable key seen ps))
        ⊎ ((usable p ≡ true)
            × (has_text (key p) seen ≡ false)
            × (dedupe_from usable key seen (p ∷ ps) ≡ p ∷ dedupe_from usable key (key p ∷ seen) ps))
  unfolding dedupe_from
  dedupe-cases seen p ps = elim (Bool-cases (usable p)) [
    | inr e ↦ inl (inl e, rw e refl)
    | inl e ↦ elim (Bool-cases (has_text (key p) seen)) [
      | inl f ↦ inl (inr f, rw (e, f) refl)
      | inr f ↦ inr (e, f, rw (e, f) refl)
    ]
  ]

  -- No key twice, and each peer usable.
  abbrev pub ArePeers : List Peer → Type 0
  ArePeers ps = IsDistinct (keys ps) × All (λ p. usable p ≡ true) ps

  abbrev AreNew : List (List ℕ) → List Peer → Type 0
  AreNew seen ps = All (λ p. has_text (key p) seen ≡ false) ps

  unseen :
      (p : Peer) (seen : List (List ℕ)) (ps : List Peer)
      → AreNew (key p ∷ seen) ps
      → (has_text (key p) (keys ps) ≡ false) × AreNew seen ps
  unseen p seen [] h = (refl, tt)
  unseen p seen (q ∷ qs) h =
      let (apart, still) = unseen p seen qs h.1 in
      elim (Bool-cases (key p === key q)) [
        | inl e ↦ absurd (ground (arith, e, h.0))
        | inr e ↦ rw (===_sym (key p) (key q) e) (apart, (ground (arith, e, h.0), still))
      ]

  dedupe_from-ArePeers :
      (seen : List (List ℕ)) (ps : List Peer)
      → ArePeers (dedupe_from usable key seen ps) × AreNew seen (dedupe_from usable key seen ps)
  dedupe_from-ArePeers seen [] = unfold dedupe_from in ((tt, tt), tt)
  dedupe_from-ArePeers seen (p ∷ ps) = elim (dedupe-cases seen p ps) [
    | inl (why, same) ↦ rw same (dedupe_from-ArePeers seen ps)
    | inr (good, new, more) ↦
        let ((d, u), fresh) = dedupe_from-ArePeers (key p ∷ seen) ps in
        let (apart, still) = unseen p seen (dedupe_from usable key (key p ∷ seen) ps) fresh in
        rw more (((apart, d), (good, u)), (new, still))
  ]

  -- Whatever holds of all peers holds of those that are kept.
  dedupe_from-All :
      (P : Peer → Type 0) (seen : List (List ℕ)) (ps : List Peer)
      → All P ps
      → All P (dedupe_from usable key seen ps)
  dedupe_from-All P seen [] h = unfold dedupe_from in tt
  dedupe_from-All P seen (p ∷ ps) h = elim (dedupe-cases seen p ps) [
    | inl (why, same) ↦ rw same (dedupe_from-All P seen ps h.1)
    | inr (good, new, more) ↦ rw more (h.0, dedupe_from-All P (key p ∷ seen) ps h.1)
  ]

  -- The key of a usable peer is kept, if it was not seen before.
  dedupe_from-keeps :
      (seen : List (List ℕ)) (ps : List Peer) (k : List ℕ)
      → Any (λ p. (usable p ≡ true) × (key p ≡ k)) ps
      → (has_text k seen ≡ true) ⊎ (has_text k (keys (dedupe_from usable key seen ps)) ≡ true)
  dedupe_from-keeps seen [] k h = absurd h
  dedupe_from-keeps seen (p ∷ ps) k h = elim (dedupe-cases seen p ps) [
    | inl (why, same) ↦ rw same (passed seen p ps k why h (dedupe_from-keeps seen ps k))
    | inr (good, new, more) ↦ rw more (kept h (dedupe_from-keeps (key p ∷ seen) ps k))
  ]
    where
      passed :
          (seen : List (List ℕ)) (p : Peer) (ps : List Peer) (k : List ℕ)
          → (usable p ≡ false) ⊎ (has_text (key p) seen ≡ true)
          → ((usable p ≡ true) × (key p ≡ k)) ⊎ Any (λ p. (usable p ≡ true) × (key p ≡ k)) ps
          → (Any (λ p. (usable p ≡ true) × (key p ≡ k)) ps
              → (has_text k seen ≡ true)
                ⊎ (has_text k (keys (dedupe_from usable key seen ps)) ≡ true))
          → (has_text k seen ≡ true) ⊎ (has_text k (keys (dedupe_from usable key seen ps)) ≡ true)
      passed seen p ps k (inl bad) (inl (good, e)) f = absurd (ground (arith, bad, good))
      passed seen p ps k (inr old) (inl (good, e)) f =
          inl (subst (λ x. has_text x seen ≡ true) e old)
      passed seen p ps k why (inr h) f = f h

      kept :
          ((usable p ≡ true) × (key p ≡ k)) ⊎ Any (λ p. (usable p ≡ true) × (key p ≡ k)) ps
          → (Any (λ p. (usable p ≡ true) × (key p ≡ k)) ps
              → (has_text k (key p ∷ seen) ≡ true)
                ⊎ (has_text k (keys (dedupe_from usable key (key p ∷ seen) ps)) ≡ true))
          → (has_text k seen ≡ true)
            ⊎ (has_text k (key p ∷ keys (dedupe_from usable key (key p ∷ seen) ps)) ≡ true)
      kept (inl (good, e)) f =
          inr (ground (arith, subst (λ x. (key p === x) ≡ true) e (===_refl (key p))))
      kept (inr h) f = elim (f h) [
        | inr there ↦ inr (ground (arith, there))
        | inl before ↦ elim (Bool-cases (key p === k)) [
          | inl e ↦ inr (ground (arith, e))
          | inr e ↦ inl (ground (arith, e, before))
        ]
      ]

  -- Of any peers, those kept are usable, no two of them have one key, and no key of a usable peer is lost.
  pub dedupe_peers-ArePeers :
      (ps : List Peer)
      → ArePeers (dedupe_peers usable key ps)
        × ((k : List ℕ)
            → Any (λ p. (usable p ≡ true) × (key p ≡ k)) ps
            → has_text k (keys (dedupe_peers usable key ps)) ≡ true)
  unfolding dedupe_peers
  dedupe_peers-ArePeers ps = (
    (dedupe_from-ArePeers [] ps).0,
    λ k h. elim (dedupe_from-keeps [] ps k h) [ inl e ↦ absurd (ground (arith, e)) | inr e ↦ e ],
  )

  pub dedupe_peers-All :
      (P : Peer → Type 0) (ps : List Peer) → All P ps → All P (dedupe_peers usable key ps)
  unfolding dedupe_peers
  dedupe_peers-All P ps h = dedupe_from-All P [] ps h
