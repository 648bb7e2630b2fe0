-- ===== src/Transfer/Turns.antt =====
-- A turn of the loop of downloadPieceFromSession keeps the transfer sound.
use bit_torrent.Transfer.Sound.{
  IsSound, fill-IsSound, overlay_length, IsReceivable, same_window, clamp-le, PexPanics,
}
use bit_torrent.Pieces.Bitfield.{bitfield_has_piece, set_bitfield_piece}
use bit_torrent.Wire.Payloads.{parse_have_index}
use bit_torrent.Wire.Message.{
  msg_choke, msg_extended, msg_bitfield, msg_have, msg_piece, parse_piece_message, max_message_size,
  Message,
}
use bit_torrent.Wire.Bytes.{uint32, IsU32}
use bit_torrent.Transfer.Window.{
  length-erase, erase-IsDistinct, erase-Below, total-erase, find_block-inside,
}
use bit_torrent.Swarm.{PexPeer, parse_ut_pex_peers}
use bit_torrent.Bencode.Value.{Outcome}
use bit_torrent.Transfer.{
  hand_on, turn, clamp, msg_choke, msg_extended, msg_bitfield, msg_have, msg_piece,
  set_bitfield_piece, parse_have_index, on_extended, received, parse_piece_message, on_bitfield,
  Message, on_message, on_have, on_piece, on_block, panic, failed, find_block, going, store, Turn,
  Transfer,
}
use bit_torrent.Base.{
  get_or, not, ◌==ℤ◌, true, ◌==◌, Option-cases, if◌then◌else◌, Bool, ◌∙◌, inr, take_all, inl, false,
  length-drop, ◌||◌, ◌&&◌, ltb, refl, some, Bool-cases, arith, drop, take, length, ◌+◌, ◌≡◌, ◌<◌, ℕ,
  List, ◌++◌, ◌-◌, ◌%◌, ◌^◌,
}

module _ (P : Type 0) where
  -- What a turn may lead to: the invariant if the loop goes on, and `P` at
  -- a panic.
  abbrev pub TurnSound : ℕ → Turn → Type 0
  TurnSound size (going t) = IsSound size t
  TurnSound size (failed e sent) = Unit {0}
  TurnSound size panic = P

  store-TurnSound :
      (size off n : ℕ) (block : List ℕ) (t : Transfer)
      → IsU32 size
      → IsSound size t
      → find_block off t.in_flight ≡ some n
      → length block ≡ n
      → TurnSound size (store off block t)
  unfolding store
  store-TurnSound size off n block t h s found e =
      let inside = find_block-inside t.next_begin off n t.in_flight s.below found in
      let stop_at : (off + length block % 2 ^ 32) % 2 ^ 32 ≡ off + n =
        omega (arith, inside, s.bound) in
      let no_panic : (ltb (off + n) off || ltb (length t.piece_data) (off + n)) ≡ false =
        ground (arith, s.whole, s.bound, inside) in
      let cut : take (off + n - off) block ≡ block = take_all (off + n - off) block (omega arith) in
      rw (stop_at, no_panic)
        (record {
          whole = rw cut (
              overlay_length off n t.piece_data block (omega (arith, s.whole, s.bound, inside)) e
              ∙ s.whole);
          count = omega (arith, s.count, total-erase off n t.in_flight s.distinct found);
          bound = s.bound;
          below = erase-Below t.next_begin off t.in_flight s.below;
          distinct = erase-IsDistinct off t.in_flight s.distinct;
          few = omega (arith, s.few, length-erase off t.in_flight);
        })

  on_block-TurnSound :
      (size idx i off : ℕ) (block : List ℕ) (t : Transfer)
      → IsU32 size
      → length block < max_message_size
      → IsSound size t
      → TurnSound size (on_block idx i off block t)
  unfolding on_block
  on_block-TurnSound size idx i off block t h short s = elim (Bool-cases (i == idx % 2 ^ 32)) [
    | inr e ↦ rw e s
    | inl e ↦ elim (Option-cases (find_block off t.in_flight)) [
      | inl none_found ↦ rw (e, none_found) s
      | inr (n, found) ↦ elim (Bool-cases (length block % 2 ^ 32 == n)) [
        | inr other ↦ rw (e, found, other) tt
        | inl same ↦
            rw (e, found, same) (store-TurnSound size off n block t h s found (ground arith))
      ]
    ]
  ]

  on_piece-TurnSound :
      (size idx : ℕ) (payload : List ℕ) (t : Transfer)
      → IsU32 size
      → length payload < max_message_size
      → IsSound size t
      → TurnSound size (on_piece idx payload t)
  unfolding on_piece parse_piece_message
  on_piece-TurnSound size idx payload t h short s = elim (Bool-cases (ltb (length payload) 8)) [
    | inl e ↦ rw (e, TurnSound) tt
    | inr e ↦
        rw (e, TurnSound)
          (on_block-TurnSound size idx (uint32 payload) (uint32 (drop 4 payload)) (drop 8 payload) t
            h (omega (arith, length-drop 8 payload)) s)
  ]

  TurnSound-if :
      (size : ℕ) (b : Bool) (x y : Turn)
      → TurnSound size x
      → TurnSound size y
      → TurnSound size (if b then x else y)
  TurnSound-if size true x y h k = h
  TurnSound-if size false x y h k = k

  on_have-TurnSound :
      (size : ℕ) (payload : List ℕ) (t : Transfer)
      → IsSound size t
      → TurnSound size (on_have payload t)
  unfolding on_have
  on_have-TurnSound size payload t s = elim (Option-cases (parse_have_index payload)) [
    | inl e ↦ rw (e, TurnSound) s
    | inr (i, e) ↦
        rw (e, TurnSound) (same_window size t (set_bitfield_piece t.bitfield i) t.discovered s)
  ]

  hand_on-TurnSound :
      (size : ℕ) (found : Outcome (List PexPeer)) (t : Transfer)
      → (found ≡ Outcome.panic → P)
      → IsSound size t
      → TurnSound size (hand_on found t)
  unfolding hand_on
  hand_on-TurnSound size (Outcome.ok found) t p s =
      same_window size t t.bitfield (t.discovered ++ found) s
  hand_on-TurnSound size (Outcome.err e) t p s = s
  hand_on-TurnSound size Outcome.panic t p s = p refl
  hand_on-TurnSound size Outcome.out_of_fuel t p s = s

  on_extended-TurnSound :
      (size : ℕ) (payload : List ℕ) (t : Transfer)
      → (parse_ut_pex_peers (drop 1 payload) ≡ Outcome.panic → P)
      → IsSound size t
      → TurnSound size (on_extended payload t)
  unfolding on_extended
  on_extended-TurnSound size payload t p s =
      TurnSound-if size
        (not (ltb (length payload) 2) && (ltb 0 t.ut_pex_id && get_or payload 0 0 == t.ut_pex_id))
        (hand_on (parse_ut_pex_peers (drop 1 payload)) t) (going t)
        (hand_on-TurnSound size (parse_ut_pex_peers (drop 1 payload)) t p s) s

  on_message-TurnSound :
      (size idx : ℕ) (m : Message) (t : Transfer)
      → IsU32 size
      → IsReceivable m
      → (PexPanics m → P)
      → IsSound size t
      → TurnSound size (on_message idx m t)
  unfolding on_message on_bitfield
  on_message-TurnSound size idx m t h short p s =
      TurnSound-if size (m.id ==ℤ msg_piece) _ _ (on_piece-TurnSound size idx m.payload t h short s)
        (TurnSound-if size (m.id ==ℤ msg_have) _ _ (on_have-TurnSound size m.payload t s) (
          TurnSound-if size (m.id ==ℤ msg_bitfield) _ _
            (TurnSound-if size (not (bitfield_has_piece m.payload idx)) _ _ tt
              (same_window size t m.payload t.discovered s))
            (TurnSound-if size (m.id ==ℤ msg_extended) _ _
              (on_extended-TurnSound size m.payload t p s)
              (TurnSound-if size (m.id ==ℤ msg_choke) _ _ tt s))))

  pub turn-TurnSound :
      (size idx : ℕ) (m : Message) (t : Transfer)
      → IsU32 size
      → IsReceivable m
      → (PexPanics m → P)
      → IsSound size t
      → TurnSound size (turn size idx (received m) t)
  unfolding turn
  turn-TurnSound size idx m t h r p s =
      on_message-TurnSound size idx m _ h r p
        (fill-IsSound (clamp t.window) (clamp t.window) size idx t h (clamp-le t.window) s)
