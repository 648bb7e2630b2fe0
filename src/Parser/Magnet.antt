-- ===== src/Parser/Magnet.antt =====
-- Which magnet links are accepted.
use bit_torrent.Parser.{
  first_value, MagnetLink, MagnetError, HashError, has_prefix, trim_prefix, urn_btih,
  decode_info_hash, first_hash, parse_magnet_link,
}
use bit_torrent.Wire.Handshake.{codes}
use bit_torrent.Base.{
  subst, Bool-cases, ◌∷◌, [], ◌≡◌, ℕ, List, true, false, Option, none, some, Result, ok, err, Any,
  ◌⊎◌, inl, inr, refl, sym, ap, ◌∙◌, arith,
}

module _ (trim upper : List ℕ → List ℕ) (hex base32 : List ℕ → Option (List ℕ)) where
  -- A value of `xt` that names a hash.
  abbrev pub Names : List ℕ → List ℕ → Type 0
  Names xt hash =
      (has_prefix xt urn_btih ≡ true)
      × (decode_info_hash trim upper hex base32 (trim_prefix xt urn_btih) ≡ ok hash)

  first_hash-other :
      (xt : List ℕ) (xts : List (List ℕ)) (last : Option HashError)
      → has_prefix xt urn_btih ≡ false
      → first_hash trim upper hex base32 (xt ∷ xts) last ≡ first_hash trim upper hex base32 xts last
  unfolding first_hash
  first_hash-other xt xts last e = rw e refl

  first_hash-ok :
      (xt hash : List ℕ) (xts : List (List ℕ)) (last : Option HashError)
      → Names xt hash
      → first_hash trim upper hex base32 (xt ∷ xts) last ≡ ok hash
  unfolding first_hash
  first_hash-ok xt hash xts last (p, e) = rw (p, e) refl

  first_hash-err :
      (xt : List ℕ) (xts : List (List ℕ)) (last : Option HashError) (x : HashError)
      → has_prefix xt urn_btih ≡ true
      → decode_info_hash trim upper hex base32 (trim_prefix xt urn_btih) ≡ err x
      → first_hash trim upper hex base32 (xt ∷ xts) last
        ≡ first_hash trim upper hex base32 xts (some x)
  unfolding first_hash
  first_hash-err xt xts last x p e = rw (p, e) refl

  -- The step over one value, by what it is.
  cases :
      (xt : List ℕ)
      → (has_prefix xt urn_btih ≡ false)
        ⊎ ((hash : List ℕ) × Names xt hash)
        ⊎ ((x : HashError) × (has_prefix xt urn_btih ≡ true)
            × (decode_info_hash trim upper hex base32 (trim_prefix xt urn_btih) ≡ err x))
  cases xt = elim (Bool-cases (has_prefix xt urn_btih)) [
    | inr e ↦ inl e
    | inl p ↦
        inr (decoded (decode_info_hash trim upper hex base32 (trim_prefix xt urn_btih)) p refl)
  ]
    where
      decoded :
          (r : Result HashError (List ℕ))
          → has_prefix xt urn_btih ≡ true
          → decode_info_hash trim upper hex base32 (trim_prefix xt urn_btih) ≡ r
          → ((hash : List ℕ) × Names xt hash)
            ⊎ ((x : HashError) × (has_prefix xt urn_btih ≡ true)
                × (decode_info_hash trim upper hex base32 (trim_prefix xt urn_btih) ≡ err x))
      decoded (ok hash) p e = inl (hash, (p, e))
      decoded (err x) p e = inr (x, p, e)

  first_hash-Any :
      (xts : List (List ℕ)) (last : Option HashError) (hash : List ℕ)
      → first_hash trim upper hex base32 xts last ≡ ok hash
      → Any (λ xt. Names xt hash) xts
  first_hash-Any [] none hash e = absurd (unfold first_hash in ground arith)
  first_hash-Any [] (some x) hash e = absurd (unfold first_hash in ground arith)
  first_hash-Any (xt ∷ xts) last hash e = elim (cases xt) [
    | inl other ↦ inr (first_hash-Any xts last hash (sym (first_hash-other xt xts last other) ∙ e))
    | inr (inl (h, names)) ↦
        inl (subst (Names xt) (ok_inj h hash (sym (first_hash-ok xt h xts last names) ∙ e)) names)
    | inr (inr (x, p, bad)) ↦
        inr (first_hash-Any xts (some x) hash (sym (first_hash-err xt xts last x p bad) ∙ e))
  ]
    where
      ok_inj : (a b : List ℕ) → ◌≡◌ {A = Result MagnetError (List ℕ)} (ok a) (ok b) → a ≡ b
      ok_inj a b e = ap (λ r. elim r as (λ _. List ℕ) [ ok x ↦ x | err y ↦ a ]) e

  first_hash-found :
      (xts : List (List ℕ)) (last : Option HashError)
      → Any (λ xt. (hash : List ℕ) × Names xt hash) xts
      → (hash : List ℕ) × (first_hash trim upper hex base32 xts last ≡ ok hash)
  first_hash-found [] last h = absurd h
  first_hash-found (xt ∷ xts) last (inl (hash, names)) =
      (hash, first_hash-ok xt hash xts last names)
  first_hash-found (xt ∷ xts) last (inr rest) = elim (cases xt) [
    | inl other ↦
        let (hash, e) = first_hash-found xts last rest in
        (hash, first_hash-other xt xts last other ∙ e)
    | inr (inl (h, names)) ↦ (h, first_hash-ok xt h xts last names)
    | inr (inr (x, p, bad)) ↦
        let (hash, e) = first_hash-found xts (some x) rest in
        (hash, first_hash-err xt xts last x p bad ∙ e)
  ]

  module _ (query : List ℕ → Option (List ℕ → List (List ℕ))) (link : List ℕ)
      (params : List ℕ → List (List ℕ)) (p : has_prefix link (codes "magnet:?") ≡ true)
      (q : query (trim_prefix link (codes "magnet:?")) ≡ some params) where
    accepted :
        (hash : List ℕ)
        → first_hash trim upper hex base32 (params (codes "xt")) none ≡ ok hash
        → (m : MagnetLink) × (parse_magnet_link trim upper hex base32 query link ≡ ok m)
          × (m.info_hash ≡ hash)
          × (m.trackers ≡ params (codes "tr"))
    unfolding parse_magnet_link
    accepted hash e = (
      record {
        info_hash = hash;
        name = first_value (params (codes "dn"));
        trackers = params (codes "tr");
        peer_addrs = params (codes "x.pe");
      },
      rw (p, q, e) refl,
      refl,
      refl,
    )

    -- A magnet link whose query can be read is accepted where a value of `xt` names a hash, and what
    -- is answered has such a hash, and the trackers of the query: an unreadable value before it
    -- does not matter.
    pub parse_magnet_link-Any :
        Any (λ xt. (hash : List ℕ) × Names xt hash) (params (codes "xt"))
        → (m : MagnetLink) × (parse_magnet_link trim upper hex base32 query link ≡ ok m)
          × Any (λ xt. Names xt m.info_hash) (params (codes "xt"))
          × (m.trackers ≡ params (codes "tr"))
    parse_magnet_link-Any h =
        let (hash, e) = first_hash-found (params (codes "xt")) none h in
        let (m, run, same, trackers) = accepted hash e in
        (
          m,
          run,
          subst (λ k. Any (λ xt. Names xt k) (params (codes "xt"))) (sym same)
              (first_hash-Any (params (codes "xt")) none hash e),
          trackers,
        )
