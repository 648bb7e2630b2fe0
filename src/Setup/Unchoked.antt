-- ===== src/Setup/Unchoked.antt =====
-- When a session with a peer is ready.
use bit_torrent.Setup.{
  Setup, ready, refused, panicked, peer_choked, setup_read, on_setup, on_extended, with_id,
  with_peers, have_piece, setup_loop,
}
use bit_torrent.Download.{Session}
use bit_torrent.Swarm.{PexPeer, parse_ut_pex_peers, parse_ut_pex_id}
use bit_torrent.Bencode.Value.{Outcome}
use bit_torrent.Wire.Message.{
  Message, read_message, msg_bitfield, msg_have, msg_extended, msg_unchoke, msg_choke,
}
use bit_torrent.Wire.Bytes.{ReadError}
use Prim.Native.Nat.{suc, zero}
use bit_torrent.Base.{
  ℕ, ℤ, pos, negsuc, List, ◌≡◌, ◌<◌, [], Bool, true, false, ◌&&◌, ◌==◌, ◌==ℤ◌, ltb, get_or, drop,
  length, if◌then◌else◌, Result, Option, none, some, ok, err, ◌⊎◌, inl, inr, refl, sym, ◌∙◌, ap,
  subst, arith,
}

-- Messages up to an unchoke, so many at most, none of which is a choke, with what is left behind it.
pub data Unchoked : ℕ → List ℕ → List ℕ → Type 0 where
  here :
      {n : ℕ} {conn rest : List ℕ} (m : Message)
      → read_message conn ≡ ok (m, rest)
      → (m.id ==ℤ msg_unchoke) ≡ true
      → Unchoked (suc n) conn rest
  later :
      {n : ℕ} {conn next rest : List ℕ} (m : Message)
      → read_message conn ≡ ok (m, next)
      → (m.id ==ℤ msg_choke) ≡ false
      → Unchoked n next rest
      → Unchoked (suc n) conn rest

abbrev left_of : Setup → List ℕ
left_of (ready s found rest) = rest
left_of _ = []

-- A message goes on to the next one, or a decoder panics.
abbrev GoesOn : Setup → (Session → List PexPeer → Setup) → Type 0
GoesOn r next = ((s : Session) × (found : List PexPeer) × (r ≡ next s found)) ⊎ (r ≡ panicked)

with_id-GoesOn :
    (o : Outcome (Option ℕ)) (next : Session → List PexPeer → Setup) (s : Session)
    (found : List PexPeer)
    → GoesOn (with_id o next s found) next
unfolding with_id
with_id-GoesOn (Outcome.ok (some i)) next s found = inl (_, _, refl)
with_id-GoesOn (Outcome.ok none) next s found = inl (_, _, refl)
with_id-GoesOn (Outcome.err e) next s found = inl (_, _, refl)
with_id-GoesOn Outcome.panic next s found = inr refl
with_id-GoesOn Outcome.out_of_fuel next s found = inl (_, _, refl)

with_peers-GoesOn :
    (o : Outcome (List PexPeer)) (next : Session → List PexPeer → Setup) (s : Session)
    (found : List PexPeer)
    → GoesOn (with_peers o next s found) next
unfolding with_peers
with_peers-GoesOn (Outcome.ok ps) next s found = inl (_, _, refl)
with_peers-GoesOn (Outcome.err e) next s found = inl (_, _, refl)
with_peers-GoesOn Outcome.panic next s found = inr refl
with_peers-GoesOn Outcome.out_of_fuel next s found = inl (_, _, refl)

on_extended-GoesOn :
    (payload : List ℕ) (next : Session → List PexPeer → Setup) (s : Session) (found : List PexPeer)
    → GoesOn (on_extended payload next s found) next
unfolding on_extended
on_extended-GoesOn payload next s found =
    choose (ltb (length payload) 2) (get_or payload 0 0 == 0)
      (ltb 0 s.ut_pex_id && get_or payload 0 0 == s.ut_pex_id)
  where
    choose :
        (short own theirs : Bool)
        → GoesOn
            (if short
              then next s found
              else if own
              then with_id (parse_ut_pex_id (drop 1 payload)) next s found
              else if theirs
              then with_peers (parse_ut_pex_peers (drop 1 payload)) next s found
              else next s found)
            next
    choose true own theirs = inl (_, _, refl)
    choose false true theirs = with_id-GoesOn (parse_ut_pex_id (drop 1 payload)) next s found
    choose false false true = with_peers-GoesOn (parse_ut_pex_peers (drop 1 payload)) next s found
    choose false false false = inl (_, _, refl)

-- The ID of another message is not that of a choke.
apart : (z : ℤ) (a : ℕ) → 0 < a → (z ==ℤ pos a) ≡ true → (z ==ℤ msg_choke) ≡ false
apart (pos n) a h e = ground (arith, h, e)
apart (negsuc n) a h e = refl

on_setup-cases :
    (m : Message) (rest : List ℕ) (next : Session → List PexPeer → Setup) (s : Session)
    (found : List PexPeer)
    → (((m.id ==ℤ msg_choke) ≡ false) × GoesOn (on_setup m rest next s found) next)
      ⊎ ((((m.id ==ℤ msg_unchoke) ≡ true) × (on_setup m rest next s found ≡ ready s found rest))
          ⊎ (on_setup m rest next s found ≡ refused peer_choked))
unfolding on_setup
on_setup-cases m rest next s found =
    choose (m.id ==ℤ msg_bitfield) (m.id ==ℤ msg_have) (m.id ==ℤ msg_extended)
      (m.id ==ℤ msg_unchoke) (m.id ==ℤ msg_choke) (apart m.id 5 (omega arith))
      (apart m.id 4 (omega arith)) (apart m.id 20 (omega arith))
  where
    choose :
        (bits has ext unchoke choke : Bool)
        → (bits ≡ true → choke ≡ false)
        → (has ≡ true → choke ≡ false)
        → (ext ≡ true → choke ≡ false)
        → let r =
            if bits
            then next (record s { bitfield = m.payload }) found
            else if has
            then next (have_piece m.payload s) found
            else if ext
            then on_extended m.payload next s found
            else if unchoke
            then ready s found rest
            else if choke
            then refused peer_choked
            else next s found in
          ((choke ≡ false) × GoesOn r next)
          ⊎ (((unchoke ≡ true) × (r ≡ ready s found rest)) ⊎ (r ≡ refused peer_choked))
    choose true has ext unchoke choke f g h = inl (f refl, inl (_, _, refl))
    choose false true ext unchoke choke f g h = inl (g refl, inl (_, _, refl))
    choose false false true unchoke choke f g h =
        inl (h refl, on_extended-GoesOn m.payload next s found)
    choose false false false true choke f g h = inr (inl (refl, refl))
    choose false false false false true f g h = inr (inr refl)
    choose false false false false false f g h = inl (refl, inl (_, _, refl))

-- Whatever a peer sends, a session is ready only behind an unchoke that is among the messages allowed,
-- with no choke before it, and what is left on the connection is what follows the unchoke.
pub setup_loop-Unchoked :
    (left : ℕ) (conn : List ℕ) (s t : Session) (found more : List PexPeer) (rest : List ℕ)
    → setup_loop left conn s found ≡ ready t more rest
    → Unchoked left conn rest
unfolding setup_loop
setup_loop-Unchoked zero conn s t found more rest e = cc
setup_loop-Unchoked (suc left) conn s t found more rest e =
    go (read_message conn) refl e
      (λ next u them f. setup_loop-Unchoked left next u t them more rest f)
  where
    go :
        (r : Result ReadError (Message × List ℕ))
        → read_message conn ≡ r
        → (elim r as (λ _. Setup) [
          | err x ↦ refused setup_read
          | ok (m, next) ↦ on_setup m next (λ t more. setup_loop left next t more) s found
        ])
          ≡ ready t more rest
        → ((next : List ℕ) (u : Session) (them : List PexPeer)
            → setup_loop left next u them ≡ ready t more rest
            → Unchoked left next rest)
        → Unchoked (suc left) conn rest
    go (err x) q e rec = cc
    go (ok (m, next)) q e rec =
        elim (on_setup-cases m next (λ t more. setup_loop left next t more) s found) [
          | inl (no_choke, inl (u, them, same)) ↦
              Unchoked.later m q no_choke (rec next u them (sym same ∙ e))
          | inl (no_choke, inr same) ↦ cc
          | inr (inl (is_unchoke, same)) ↦
              subst (λ x. Unchoked (suc left) conn x) (ap left_of (sym same ∙ e))
                (Unchoked.here m q is_unchoke)
          | inr (inr same) ↦ cc
        ]
