-- ===== src/Client/Lists.antt =====
-- What the lists of trackers hold.
use bit_torrent.Client.{
  add_url, add_urls, all_tiers, add_until, build_tracker_url_list, build_tracker_list,
  build_magnet_tracker_url_list, max_magnet_trackers,
}
use bit_torrent.Pieces.Torrent.{TorrentFile}
use bit_torrent.Base.{
  IsDistinct, IsDistinct-snoc, has_text, subst, ℕ, List, [], ◌∷◌, ◌++◌, ◌+◌, ◌≡◌, ◌≤◌, ◌<◌, true,
  false, ◌==◌, ◌===◌, leb, length, length-append, All, All-append, Any, ◌⊎◌, inl, inr, Bool-cases,
  refl, sym, ap, arith,
}

module _ (trim : List ℕ → List ℕ) where
  -- A text is added, or nothing is.
  add_url-cases :
      (list : List (List ℕ)) (u : List ℕ)
      → (add_url trim list u ≡ list)
        ⊎ (((trim u === []) ≡ false)
            × (has_text (trim u) list ≡ false)
            × (add_url trim list u ≡ list ++ (trim u ∷ [])))
  unfolding add_url
  add_url-cases list u = elim (Bool-cases (trim u === [])) [
    | inl e ↦ inl (rw e refl)
    | inr e ↦ elim (Bool-cases (has_text (trim u) list)) [
      | inl f ↦ inl (rw (e, f) refl)
      | inr f ↦ inr (e, f, rw (e, f) refl)
    ]
  ]

  -- No text twice, and none empty.
  abbrev pub IsList : List (List ℕ) → Type 0
  IsList list = IsDistinct list × All (λ u. (u === []) ≡ false) list

  add_url-IsList : (list : List (List ℕ)) (u : List ℕ) → IsList list → IsList (add_url trim list u)
  add_url-IsList list u (d, full) = elim (add_url-cases list u) [
    | inl same ↦ subst IsList (sym same) (d, full)
    | inr (some_text, new, more) ↦ subst IsList (sym more) (
      IsDistinct-snoc list (trim u) d new,
      All-append (λ v. (v === []) ≡ false) list (trim u ∷ []) full (some_text, tt),
    )
  ]

  add_urls-IsList : (list us : List (List ℕ)) → IsList list → IsList (add_urls trim list us)
  unfolding add_urls
  add_urls-IsList list [] h = h
  add_urls-IsList list (u ∷ us) h =
      add_urls-IsList (add_url trim list u) us (add_url-IsList list u h)

  add_url-All :
      (P : List ℕ → Type 0) (list : List (List ℕ)) (u : List ℕ)
      → All P list
      → P (trim u)
      → All P (add_url trim list u)
  add_url-All P list u h p = elim (add_url-cases list u) [
    | inl same ↦ subst (All P) (sym same) h
    | inr (some_text, new, more) ↦
        subst (All P) (sym more) (All-append P list (trim u ∷ []) h (p, tt))
  ]

  add_urls-All :
      (P : List ℕ → Type 0) (list us : List (List ℕ))
      → All P list
      → All (λ u. P (trim u)) us
      → All P (add_urls trim list us)
  unfolding add_urls
  add_urls-All P list [] h p = h
  add_urls-All P list (u ∷ us) h p =
      add_urls-All P (add_url trim list u) us (add_url-All P list u h p.0) p.1

  own :
      (all : List (List ℕ)) (us : List (List ℕ))
      → ((v : List ℕ) → Any (λ x. x ≡ v) us → Any (λ x. x ≡ v) all)
      → All (λ u. Any (λ x. trim x ≡ trim u) all) us
  own all [] f = tt
  own all (u ∷ us) f = (trimmed all (f u (inl refl)), own all us (λ v h. f v (inr h)))
    where
      trimmed : (xs : List (List ℕ)) → Any (λ x. x ≡ u) xs → Any (λ x. trim x ≡ trim u) xs
      trimmed [] h = h
      trimmed (x ∷ xs) (inl e) = inl (ap trim e)
      trimmed (x ∷ xs) (inr h) = inr (trimmed xs h)

  -- The trackers of a private torrent are its own: no public one is added.
  pub build_tracker_list-private :
      (fallback : List (List ℕ)) (tf : TorrentFile)
      → tf.info.private ≡ true
      → All
          (λ u. Any (λ x. trim x ≡ u) (tf.announce ∷ all_tiers tf.announce_list))
          (build_tracker_list trim fallback tf)
        × IsList (build_tracker_list trim fallback tf)
  unfolding build_tracker_list build_tracker_url_list
  build_tracker_list-private fallback tf e =
      let all = tf.announce ∷ all_tiers tf.announce_list in
      rw e (
        add_urls-All (λ u. Any (λ x. trim x ≡ u) all) [] all tt (own all all (λ v h. h)),
        add_urls-IsList [] all (tt, tt),
      )

  length-add_url :
      (list : List (List ℕ)) (u : List ℕ) → length (add_url trim list u) ≤ length list + 1
  length-add_url list u = elim (add_url-cases list u) [
    | inl same ↦ rw same (omega arith)
    | inr (some_text, new, more) ↦ rw more (omega (arith, length-append list (trim u ∷ [])))
  ]

  add_until_bounded :
      (list us : List (List ℕ))
      → length list < max_magnet_trackers
      → IsList list
      → (length (add_until trim list us) ≤ max_magnet_trackers) × IsList (add_until trim list us)
  unfolding add_until
  add_until_bounded list [] h l = (omega arith, l)
  add_until_bounded list (u ∷ us) h l =
      let one = length-add_url list u in
      let more = add_url-IsList list u l in
      elim (Bool-cases (leb max_magnet_trackers (length (add_url trim list u)))) [
        | inl e ↦ rw e (omega arith, more)
        | inr e ↦ rw e (add_until_bounded (add_url trim list u) us (ground (arith, e)) more)
      ]

  -- For a magnet link six trackers at most are asked, none twice.
  pub build_magnet_tracker_url_list_bounded :
      (fallback preferred trackers : List (List ℕ))
      → (length (build_magnet_tracker_url_list trim fallback preferred trackers) ≤ 6)
        × IsList (build_magnet_tracker_url_list trim fallback preferred trackers)
  unfolding build_magnet_tracker_url_list
  build_magnet_tracker_url_list_bounded fallback preferred trackers =
      let base = build_tracker_url_list trim fallback trackers true in
      let (short, first) = add_until_bounded [] preferred (omega arith) (tt, tt) in
      let base_list : IsList base =
        unfold build_tracker_url_list in
        add_urls-IsList (add_urls trim [] trackers) fallback
          (add_urls-IsList [] trackers (tt, tt)) in
      elim (Bool-cases (length base == 0)) [
        | inl e ↦ rw e (ground (arith, e), base_list)
        | inr e ↦
            elim (Bool-cases (leb max_magnet_trackers (length (add_until trim [] preferred)))) [
              | inl f ↦ rw (e, f) (short, first)
              | inr f ↦
                  rw (e, f)
                    (add_until_bounded (add_until trim [] preferred) base (ground (arith, f)) first)
            ]
      ]
