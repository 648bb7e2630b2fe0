-- ===== src/Listener/Store.antt =====
-- The listener over the seed store: what a peer is sent are bytes of the data file.
use bit_torrent.Listener.Polite.{IsPolite, greeted-IsPolite, serve-IsPolite}
use bit_torrent.Listener.Served.{IsServed, serve-AreServed, greeted-AreServed}
use bit_torrent.Listener.{
  accepted, PieceProvider, Serving, ListenerOptions, serve, greeted, handle_connection,
}
use bit_torrent.Pieces.Seed.{
  SeedStore, IsBlock, store_size, has_piece, read_piece, read_piece-IsBlock, SeedError,
}
use mathlib.Core.Option.{some-injective, none-ne-some}
use bit_torrent.Wire.Handshake.{HandshakeError, read_handshake, build_handshake}
use bit_torrent.Wire.Framing.{encodes}
use bit_torrent.Wire.Message.{Message, msg_piece, piece_message}
use bit_torrent.Base.{
  All-map, subst, ℕ, List, ◌++◌, ◌≡◌, ◌≢◌, Bool, true, Option, none, some, Result, ok, err, ◌⊎◌,
  inl, inr, refl, sym, ap, All, length,
}

abbrev to_option : Result SeedError (List ℕ) → Option (List ℕ)
to_option (ok b) = some b
to_option (err e) = none

to_option-some :
    (r : Result SeedError (List ℕ)) (block : List ℕ) → to_option r ≡ some block → r ≡ ok block
to_option-some (ok b) block e = ap ok (some-injective _ _ e)
to_option-some (err x) block e = absurd (none-ne-some _ e)

read_IsBlock :
    (s : SeedStore) (i begin len : ℕ) (block : List ℕ)
    → to_option (read_piece i begin len (some s)) ≡ some block
    → IsBlock s i begin len block
read_IsBlock s i begin len block e =
    read_piece-IsBlock s i begin len block
      (to_option-some (read_piece i begin len (some s)) block e)

pub store_read_length :
    (s : SeedStore) (i begin len : ℕ) (block : List ℕ)
    → to_option (read_piece i begin len (some s)) ≡ some block
    → length block ≡ len
store_read_length s i begin len block e = (read_IsBlock s i begin len block e).size

pub store_read_has :
    (s : SeedStore) (i begin len : ℕ) (block : List ℕ)
    → to_option (read_piece i begin len (some s)) ≡ some block
    → has_piece i (some s) ≡ true
store_read_has s i begin len block e = (read_IsBlock s i begin len block e).here

-- The seed store as the listener's provider.
abbrev pub provider_of : SeedStore → PieceProvider
provider_of s = record {
  num_pieces = store_size (some s);
  has_piece = λ i. has_piece i (some s);
  read_piece = λ i begin len. to_option (read_piece i begin len (some s));
  read_length = store_read_length s;
  read_has = store_read_has s;
}

-- A message that is no block, or a block of a piece that is there, inside it, as the data file has it.
abbrev pub IsFromFile : SeedStore → Message → Type 0
IsFromFile s m =
    (m.id ≢ msg_piece)
    ⊎ ((idx : ℕ) × (begin : ℕ) × (block : List ℕ) × (m ≡ piece_message idx begin block)
        × IsBlock s idx begin (length block) block)

module _ (s : SeedStore) (judged known : Bool) where
  abbrev pub store_options : ListenerOptions
  store_options = record {
    provider = some (provider_of s);
    has_should_unchoke = judged;
    known_peer = known;
  }

  served-IsFromFile : (m : Message) → IsServed store_options m → IsFromFile s m
  served-IsFromFile m (inl other) = inl other
  served-IsFromFile m (inr (p, idx, begin, block, same, was_read, e)) =
      let here = some-injective _ _ same in
      inr (
        idx,
        begin,
        block,
        e,
        read_IsBlock s idx begin (length block) block
            (subst (λ q. q.read_piece idx begin (length block) ≡ some block) (sym here) was_read),
      )

  abbrev IsRun : List ℕ → List ℕ → List ℕ × Serving → Type 0
  IsRun info_hash peer_id (out, end) =
      (out ≡ build_handshake info_hash peer_id ++ encodes end.sent)
      × IsPolite end
      × All (IsFromFile s) end.sent

  accepted-IsRun :
      (info_hash peer_id : List ℕ) (turns : List (Bool × Bool))
      (r : Result HandshakeError (List ℕ × List ℕ)) (run : List ℕ × Serving)
      → accepted store_options info_hash peer_id turns r ≡ some run
      → IsRun info_hash peer_id run
  unfolding accepted
  accepted-IsRun info_hash peer_id turns (err x) run e = absurd (none-ne-some _ e)
  accepted-IsRun info_hash peer_id turns (ok (remote, rest)) run e =
      let o = store_options in
      let end = (serve o turns rest (greeted o)).0 in
      subst (IsRun info_hash peer_id) (some-injective _ _ e) (
        refl,
        serve-IsPolite o turns rest (greeted o) (greeted-IsPolite o),
        All-map (IsServed o) (IsFromFile s) end.sent served-IsFromFile
            (serve-AreServed o turns rest (greeted o) (greeted-AreServed o)),
      )

  -- A peer that connects is sent, behind the handshake, messages of which each block is inside a piece
  -- that the seed store has, with the bytes of the data file; no block goes out while the peer was last
  -- told that it is choked.
  pub handle_connection-IsFromFile :
      (info_hash peer_id conn out : List ℕ) (turns : List (Bool × Bool)) (end : Serving)
      → handle_connection store_options info_hash peer_id conn turns ≡ some (out, end)
      → (out ≡ build_handshake info_hash peer_id ++ encodes end.sent)
        × IsPolite end
        × All (IsFromFile s) end.sent
  unfolding handle_connection
  handle_connection-IsFromFile info_hash peer_id conn out turns end e =
      accepted-IsRun info_hash peer_id turns (read_handshake conn info_hash) (out, end) e
