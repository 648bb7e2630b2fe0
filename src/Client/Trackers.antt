-- ===== src/Client/Trackers.antt =====
-- The lists of trackers of the command and of the downloader.
use bit_torrent.Client.{add_url, add_urls, all_tiers, build_tracker_url_list, build_tracker_list}
use bit_torrent.Swarm
use bit_torrent.Swarm.{has_tracker, add_tracker, add_trackers, add_tiers}
use bit_torrent.Pieces.Torrent.{TorrentFile}
use bit_torrent.Base.{
  has_text, ℕ, List, [], ◌∷◌, ◌++◌, ◌≡◌, Bool, true, false, not, ◌||◌, ◌===◌, if◌then◌else◌, inl,
  inr, Bool-cases, refl, sym, ap, ◌∙◌,
}

module _ (trim : List ℕ → List ℕ) where
  has_tracker-url : (u : List ℕ) (vs : List (List ℕ)) → has_tracker trim u vs ≡ has_text u vs
  unfolding has_tracker
  has_tracker-url u [] = refl
  has_tracker-url u (v ∷ vs) = ap (λ b. v === u || b) (has_tracker-url u vs)

  add_tracker-url :
      (list : List (List ℕ)) (u : List ℕ) → add_tracker trim list u ≡ add_url trim list u
  unfolding add_tracker add_url
  add_tracker-url list u =
      let same = has_tracker-url (trim u) list in
      elim (Bool-cases (trim u === [])) [
        | inl e ↦ rw e refl
        | inr e ↦ elim (Bool-cases (has_text (trim u) list)) [
          | inl f ↦ rw (same, e, f) refl
          | inr f ↦ rw (same, e, f) refl
        ]
      ]

  add_trackers-urls : (list us : List (List ℕ)) → add_trackers trim list us ≡ add_urls trim list us
  unfolding add_trackers add_urls
  add_trackers-urls list [] = refl
  add_trackers-urls list (u ∷ us) =
      ap (λ l. add_trackers trim l us) (add_tracker-url list u)
      ∙ add_trackers-urls (add_url trim list u) us

  add_urls-append :
      (list us vs : List (List ℕ))
      → add_urls trim list (us ++ vs) ≡ add_urls trim (add_urls trim list us) vs
  unfolding add_urls
  add_urls-append list [] vs = refl
  add_urls-append list (u ∷ us) vs = add_urls-append (add_url trim list u) us vs

  add_tiers-urls :
      (list : List (List ℕ)) (tiers : List (List (List ℕ)))
      → add_tiers trim list tiers ≡ add_urls trim list (all_tiers tiers)
  unfolding add_tiers
  add_tiers-urls list [] = unfold add_urls in refl
  add_tiers-urls list (tier ∷ tiers) =
      ap (λ l. add_tiers trim l tiers) (add_trackers-urls list tier)
      ∙ add_tiers-urls (add_urls trim list tier) tiers
      ∙ sym (add_urls-append list tier (all_tiers tiers))

  choose :
      (private : Bool) (own own' fallback : List (List ℕ))
      → own' ≡ own
      → (if private then add_urls trim own fallback else own)
        ≡ (if private then add_trackers trim own' fallback else own')
  choose true own own' fallback e =
      sym (ap (λ l. add_trackers trim l fallback) e ∙ add_trackers-urls own fallback)
  choose false own own' fallback e = sym e

  -- The command and the downloader, which each have a copy of the code, make the same list of trackers
  -- of a torrent, where their lists of public trackers are the same.
  pub build_tracker_list_agrees :
      (fallback : List (List ℕ)) (tf : TorrentFile)
      → build_tracker_list trim fallback tf ≡ Swarm.build_tracker_list trim fallback tf
  unfolding build_tracker_list build_tracker_url_list Swarm.build_tracker_list
  build_tracker_list_agrees fallback tf =
      choose (not tf.info.private) (add_urls trim [] (tf.announce ∷ all_tiers tf.announce_list))
        (add_tiers trim (add_tracker trim [] tf.announce) tf.announce_list) fallback
        (add_tiers-urls (add_tracker trim [] tf.announce) tf.announce_list
          ∙ ap (λ l. add_urls trim l (all_tiers tf.announce_list)) (add_tracker-url [] tf.announce))
