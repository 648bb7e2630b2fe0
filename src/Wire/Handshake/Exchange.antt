-- ===== src/Wire/Handshake/Exchange.antt =====
-- Two ends of a handshake.
use bit_torrent.Wire.Bytes.{read_full_lem, read_full-append, read_full}
use bit_torrent.Base.{
  ap₂, bind_inv, ==_iff, inr, inl, ◌&&◌, Result-cases, ◌==◌, true, ◌≢◌, take-append-drop,
  Bool-cases, ◌===◌, length-drop, subst, get_or, take_all, drop, drop-drop, sym, ◌⊎◌, ◌∙◌, take, ap,
  ◌||◌, take_exact, drop_exact, length-append, ℕ, ◌≡◌, refl, List, [], ◌∷◌, ◌++◌, arith, length, ok,
  ===_refl, ===→eq,
}
use bit_torrent.Wire.Handshake.{
  read_full, received, zero_hash, check_handshake, read_handshake_full, handshake_pstr, slice,
  build_handshake_with_reserved,
}

-- The 68 bytes, cut where the source cuts them.
length-build :
    (info peer reserved : List ℕ)
    → length info ≡ 20
    → length peer ≡ 20
    → length reserved ≡ 8
    → length (build_handshake_with_reserved info peer reserved) ≡ 68
unfolding build_handshake_with_reserved
length-build info peer reserved hi hp hr =
    omega (arith, length-append reserved (info ++ peer), length-append info peer)

slices :
    (info peer reserved : List ℕ)
    → length info ≡ 20
    → length peer ≡ 20
    → length reserved ≡ 8
    → let b = build_handshake_with_reserved info peer reserved in
      (slice 1 20 b ≡ handshake_pstr)
      × (slice 28 48 b ≡ info)
      × (slice 48 68 b ≡ peer)
      × (slice 20 28 b ≡ reserved)
unfolding build_handshake_with_reserved
slices info peer reserved hi hp hr = (
  refl,
  ap (take 20) (drop_exact 8 reserved (info ++ peer) hr) ∙ take_exact 20 info peer hi,
  ap (take 20) (
        sym (drop-drop 20 8 (reserved ++ (info ++ peer)))
        ∙ ap (drop 20) (drop_exact 8 reserved (info ++ peer) hr)
        ∙ drop_exact 20 info peer hi)
      ∙ take_all 20 peer (omega arith),
  take_exact 8 reserved (info ++ peer) hr,
)

-- The checks pass on 68 bytes that have the right slices.
check_handshake_ok :
    (b info expected : List ℕ)
    → get_or b 0 0 ≡ 19
    → slice 1 20 b ≡ handshake_pstr
    → slice 28 48 b ≡ info
    → (expected ≡ info) ⊎ (expected ≡ zero_hash)
    → check_handshake b expected ≡ ok (slice 48 68 b, slice 20 28 b)
unfolding check_handshake
check_handshake_ok b info expected h0 h1 h2 h3 =
    rw (h0, h1, h2, ===_refl handshake_pstr, expected_passes expected info h3)
  where
    expected_passes :
        (x i : List ℕ) → (x ≡ i) ⊎ (x ≡ zero_hash) → (x === zero_hash || i === x) ≡ true
    expected_passes x i (inl e) = rw e (ground (arith, ===_refl i))
    expected_passes x i (inr e) = rw e (ground (arith, ===_refl zero_hash))

-- A well-formed handshake is read back (peer ID, reserved bytes, and what follows on the
-- connection) if it is for the torrent that is expected, or if the zero hash is expected.
pub read_handshake_full-build :
    (info peer reserved expected rest : List ℕ)
    → length info ≡ 20
    → length peer ≡ 20
    → length reserved ≡ 8
    → (expected ≡ info) ⊎ (expected ≡ zero_hash)
    → read_handshake_full (build_handshake_with_reserved info peer reserved ++ rest) expected
      ≡ ok (peer, reserved, rest)
unfolding read_handshake_full
read_handshake_full-build info peer reserved expected rest hi hp hr h =
    let b = build_handshake_with_reserved info peer reserved in
    let (pstr, hash, id, res) = slices info peer reserved hi hp hr in
    let whole =
      subst (λ n. read_full n (b ++ rest) ≡ ok (b, rest)) (length-build info peer reserved hi hp hr)
        (read_full-append b rest) in
    rw (
      whole,
      check_handshake_ok b info expected (unfold build_handshake_with_reserved in refl) pstr hash h,
      id,
      res,
    )

-- What the checks let through.
check_handshake_lem :
    (b expected peer reserved : List ℕ)
    → check_handshake b expected ≡ ok (peer, reserved)
    → (get_or b 0 0 ≡ 19)
      × (slice 1 20 b ≡ handshake_pstr)
      × ((expected ≡ zero_hash) ⊎ (slice 28 48 b ≡ expected))
      × (peer ≡ slice 48 68 b)
      × (reserved ≡ slice 20 28 b)
unfolding check_handshake
check_handshake_lem b expected peer reserved h =
    elim (Bool-cases (get_or b 0 0 == 19 && slice 1 20 b === handshake_pstr)) [
      | inr bad ↦ absurd (cc (rw bad at h))
      | inl good ↦ elim (Bool-cases (expected === zero_hash)) [
        | inl zero ↦ (
          (==_iff _ _).0 (ground arith),
          ===→eq _ _ (ground arith),
          inl (===→eq _ _ zero),
          ground arith,
          ground arith,
        )
        | inr other ↦ elim (Bool-cases (slice 28 48 b === expected)) [
          | inl same ↦ (
            (==_iff _ _).0 (ground arith),
            ===→eq _ _ (ground arith),
            inr (===→eq _ _ same),
            ground arith,
            ground arith,
          )
          | inr wrong ↦ absurd (cc (rw (good, other, wrong) at h))
        ]
      ]
    ]

-- A list of 68 bytes is its five fields.
fields :
    (b : List ℕ)
    → length b ≡ 68
    → b ≡ take 1 b ++ (slice 1 20 b ++ (slice 20 28 b ++ (slice 28 48 b ++ slice 48 68 b)))
fields b h = sym (
    ap (λ x. take 1 b ++ x)
      (ap (λ x. slice 1 20 b ++ x)
          (ap (λ x. slice 20 28 b ++ x)
              (ap (λ x. slice 28 48 b ++ x)
                  (take_all 20 (drop 48 b) (omega (arith, length-drop 48 b))
                    ∙ sym (drop-drop 20 28 b))
                ∙ take-append-drop 20 (drop 28 b)
                ∙ sym (drop-drop 8 20 b))
            ∙ take-append-drop 8 (drop 20 b)
            ∙ sym (drop-drop 19 1 b))
        ∙ take-append-drop 19 (drop 1 b))
    ∙ take-append-drop 1 b)

first_byte : (b : List ℕ) → length b ≡ 68 → get_or b 0 0 ≡ 19 → take 1 b ≡ 19 ∷ []
first_byte [] h e = absurd (omega arith)
first_byte (x ∷ b) h e = ap (λ y. y ∷ []) e

-- `ReadHandshakeFull` accepts no other bytes: what it read is the handshake that a peer with that
-- ID and these reserved bytes builds for the expected torrent.
pub build-read_handshake_full :
    (conn expected peer reserved rest : List ℕ)
    → expected ≢ zero_hash
    → read_handshake_full conn expected ≡ ok (peer, reserved, rest)
    → conn ≡ build_handshake_with_reserved expected peer reserved ++ rest
unfolding read_handshake_full received build_handshake_with_reserved
build-read_handshake_full conn expected peer reserved rest nz h =
    elim (Result-cases (read_full 68 conn)) [
      | inr (x, e) ↦ absurd (cc (rw e at h))
      | inl ((b, s), e) ↦
          let (split, size) = read_full_lem 68 conn b s e in
          let (r, checked, last) =
            bind_inv (check_handshake b expected) (λ r. ok (r.0, r.1, s)) (rw e at h) in
          let (h0, h1, h2, h3, h4) = check_handshake_lem b expected r.0 r.1 checked in
          let same : slice 28 48 b ≡ expected = elim h2 [ inl z ↦ absurd (nz z) | inr k ↦ k ] in
          let eqs : (r.0 ≡ peer) × (r.1 ≡ reserved) × (s ≡ rest) = (cc, cc, cc) in
          rw (split, ← eqs.0, ← eqs.1, ← eqs.2, h3, h4, ← same)
            (ap (λ x. x ++ s)
              (fields b size
                ∙ ap₂ (λ x y. x ++ (y ++ (slice 20 28 b ++ (slice 28 48 b ++ slice 48 68 b))))
                    (first_byte b size h0) h1))
    ]
