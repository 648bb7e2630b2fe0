-- ===== src/Metadata/Genuine.antt =====
-- What `fetchMetadata` lets through.
use bit_torrent.Wire.Handshake.{handshake_with_ext_bit, HandshakeError}
use bit_torrent.Metadata.Info.{decode_info_dict, InfoDict}
use bit_torrent.Base.{
  length-replicate, ===→eq, replicate, ◌==ℤ◌, zero, length-drop, negsuc, ◌∙◌, length-take, none,
  ltb, drop, not, ◌||◌, take, suc, subst, Option, ◌==◌, length-append, pos, some, arith, refl,
  Result, ℤ, length, if◌then◌else◌, ◌+◌, ◌≡◌, ◌<◌, ◌≤◌, ℕ, List, false, true, Bool, ◌*◌, ◌/◌, ◌-◌,
  ◌++◌, ◌===◌,
}
use bit_torrent.Metadata.{
  handshake_with_ext_bit, exchange, checked_info, no_ut_metadata, await_handshake,
  no_extension_protocol, max_skip, bad_info, await_piece, handshake_failed, meta_piece_size,
  decode_info_dict, or_bad_info, InfoDict, fetch_metadata, read_info, metadata_size, fetch_pieces,
  copy_at, Fetched, ok, err, panics, hangs, ◌>>=◌,
}
use bit_torrent.Bencode.Value.{Outcome}

-- What a fetch that ends well satisfies.
abbrev Ensures {ℓ} : {A : Type ℓ} → (A → Type 0) → Fetched A → Type 0
Ensures P (ok a) = P a
Ensures P (err e) = Unit {0}
Ensures P panics = Unit {0}
Ensures P hangs = Unit {0}

Ensures-bind {ℓ κ} :
    {A : Type ℓ} {B : Type κ} (P : A → Type 0) (Q : B → Type 0) (m : Fetched A) (f : A → Fetched B)
    → Ensures P m
    → ((a : A) → P a → Ensures Q (f a))
    → Ensures Q (m >>= f)
Ensures-bind P Q (ok a) f h k = k a h
Ensures-bind P Q (err e) f h k = tt
Ensures-bind P Q panics f h k = tt
Ensures-bind P Q hangs f h k = tt

Ensures-true {ℓ} : {A : Type ℓ} (m : Fetched A) → Ensures (λ _. Unit {0}) m
Ensures-true (ok a) = tt
Ensures-true (err e) = tt
Ensures-true panics = tt
Ensures-true hangs = tt

Ensures-weaken {ℓ} :
    {A : Type ℓ} (P Q : A → Type 0) (m : Fetched A)
    → Ensures P m
    → ((a : A) → P a → Q a)
    → Ensures Q m
Ensures-weaken P Q (ok a) h k = k a h
Ensures-weaken P Q (err e) h k = tt
Ensures-weaken P Q panics h k = tt
Ensures-weaken P Q hangs h k = tt

Ensures-if {ℓ} :
    {A : Type ℓ} (P : A → Type 0) (b : Bool) (x y : Fetched A)
    → (b ≡ true → Ensures P x)
    → (b ≡ false → Ensures P y)
    → Ensures P (if b then x else y)
Ensures-if P true x y h k = h refl
Ensures-if P false x y h k = k refl

pub length-copy_at :
    (off : ℕ) (raw assembled : List ℕ)
    → off ≤ length assembled
    → length (copy_at off raw assembled) ≡ length assembled
unfolding copy_at
length-copy_at off raw assembled h = ground (
  arith,
  length-append (take off assembled)
      (take (length assembled - off) raw ++ drop (off + length raw) assembled),
  length-append (take (length assembled - off) raw) (drop (off + length raw) assembled),
  length-take off assembled,
  length-take (length assembled - off) raw,
  length-drop (off + length raw) assembled,
)

fetch_pieces-length :
    (f left i n : ℕ) (assembled conn : List ℕ)
    → length assembled ≡ n
    → (i + left) * meta_piece_size < n + meta_piece_size
    → Ensures (λ a. length a ≡ n) (fetch_pieces f left i assembled conn)
unfolding fetch_pieces
fetch_pieces-length f zero i n assembled conn e h = e
fetch_pieces-length f (suc left) i n assembled conn e h =
    Ensures-bind (λ _. Unit {0}) (λ a. length a ≡ n) (await_piece f max_skip conn) _
      (Ensures-true (await_piece f max_skip conn))
      λ r _.
        fetch_pieces-length f left (i + 1) n (copy_at (i * meta_piece_size) r.0 assembled) r.1
          (length-copy_at (i * meta_piece_size) r.0 assembled (omega arith) ∙ e) (omega arith)

metadata_size-bounds : (z : ℤ) → Ensures (λ n. (0 < n) × (n ≤ 10 * 1024 * 1024)) (metadata_size z)
unfolding metadata_size
metadata_size-bounds (pos n) =
    Ensures-if _ (n == 0 || ltb (10 * 1024 * 1024) n) _ _ (λ _. tt) (λ e. ground arith)
metadata_size-bounds (negsuc n) = tt

-- What the peer sent was the description with the hash that was asked for.
abbrev IsGenuine : (List ℕ → List ℕ) → List ℕ → InfoDict → Type 0
IsGenuine sha1 info_hash info =
    (assembled : List ℕ) × (sha1 assembled ≡ info_hash)
    × (decode_info_dict assembled ≡ Outcome.ok (some info))
    × (length assembled ≤ 10 * 1024 * 1024)

read_info-Ensures :
    (assembled : List ℕ)
    → Ensures (λ info. decode_info_dict assembled ≡ Outcome.ok (some info)) (read_info assembled)
unfolding read_info or_bad_info
read_info-Ensures assembled = go (decode_info_dict assembled) refl
  where
    go :
        (r : Outcome (Option InfoDict))
        → decode_info_dict assembled ≡ r
        → Ensures
            (λ info. decode_info_dict assembled ≡ Outcome.ok (some info))
            (elim r [
              | Outcome.ok info ↦ or_bad_info info
              | Outcome.err e ↦ err bad_info
              | Outcome.panic ↦ panics
              | Outcome.out_of_fuel ↦ err bad_info
            ])
    go (Outcome.ok (some info)) e = e
    go (Outcome.ok none) e = tt
    go (Outcome.err x) e = tt
    go Outcome.panic e = tt
    go Outcome.out_of_fuel e = tt

module _ (sha1 : List ℕ → List ℕ) (info_hash : List ℕ) where
  checked_info-Ensures :
      (a : List ℕ)
      → length a ≤ 10 * 1024 * 1024
      → Ensures (IsGenuine sha1 info_hash) (checked_info sha1 info_hash a)
  unfolding checked_info
  checked_info-Ensures a small =
      Ensures-if _ (not (sha1 a === info_hash)) _ _ (λ _. tt)
        λ e.
          Ensures-weaken _ _ (read_info a) (read_info-Ensures a)
            λ info d. (a, ===→eq (sha1 a) info_hash (ground arith), d, small)

  exchange-Ensures :
      (f : ℕ) (conn : List ℕ) → Ensures (IsGenuine sha1 info_hash) (exchange sha1 f info_hash conn)
  unfolding exchange
  exchange-Ensures f conn =
      Ensures-bind (λ _. Unit {0}) _ (await_handshake max_skip conn) _
        (Ensures-true (await_handshake max_skip conn))
        λ r _.
          Ensures-bind (λ n. (0 < n) × (n ≤ 10 * 1024 * 1024)) _
            (if r.0 ==ℤ pos 0 then err no_ut_metadata else metadata_size r.1) _
            (Ensures-if _ (r.0 ==ℤ pos 0) _ _ (λ _. tt) (λ _. metadata_size-bounds r.1))
            λ n bounds.
              let rounds = (n + meta_piece_size - 1) / meta_piece_size in
              Ensures-bind (λ a. length a ≡ n) _ (fetch_pieces f rounds 0 (replicate n 0) r.2) _
                (fetch_pieces-length f rounds 0 n (replicate n 0) r.2 (length-replicate n 0)
                  (omega arith))
                λ a size. checked_info-Ensures a (omega (arith, size, bounds))

module _ (sha1 : List ℕ → List ℕ) (f : ℕ) (conn info_hash peer_id : List ℕ) where
  fetch_metadata-Ensures :
      Ensures (IsGenuine sha1 info_hash) (fetch_metadata sha1 f conn info_hash peer_id)
  unfolding fetch_metadata
  fetch_metadata-Ensures = go (handshake_with_ext_bit conn info_hash peer_id).1
    where
      go :
          (r : Result HandshakeError (List ℕ × Bool × List ℕ))
          → Ensures (IsGenuine sha1 info_hash) (elim r [
            | Result.err e ↦ err handshake_failed
            | Result.ok (remote, supports_ext, rest) ↦
                if not supports_ext
                then err no_extension_protocol
                else exchange sha1 f info_hash rest
          ])
      go (Result.err e) = tt
      go (Result.ok (remote, supports_ext, rest)) =
          Ensures-if _ (not supports_ext) _ _ (λ _. tt) λ _. exchange-Ensures sha1 info_hash f rest

  -- Whatever a peer sends, a description that `fetchMetadata` returns was read from bytes, ten
  -- mebibytes at most, whose hash is the info hash that was asked for.
  pub fetch_metadata_genuine :
      (info : InfoDict)
      → fetch_metadata sha1 f conn info_hash peer_id ≡ ok info
      → (assembled : List ℕ) × (sha1 assembled ≡ info_hash)
        × (decode_info_dict assembled ≡ Outcome.ok (some info))
        × (length assembled ≤ 10 * 1024 * 1024)
  fetch_metadata_genuine info e =
      subst (Ensures (IsGenuine sha1 info_hash)) e fetch_metadata-Ensures
