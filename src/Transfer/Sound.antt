-- ===== src/Transfer/Sound.antt =====
-- The invariant of the loop of `downloadPieceFromSession`.
use bit_torrent.Wire.Message.{max_message_size, Message}
use bit_torrent.Wire.Bytes.{IsU32}
use bit_torrent.Transfer.Window.{
  Below-weaken, erase-absent, find_block-Below, IsDistinct, Below, total,
}
use bit_torrent.Swarm.{PexPeer, parse_ut_pex_peers}
use bit_torrent.Bencode.Value.{Outcome}
use bit_torrent.Transfer.{
  clamp, max_inflight_per_peer, read_failure, send_failure, cancelled, received, Message, Event,
  block_len, fill, request, start, Transfer,
}
use bit_torrent.Base.{
  ◌⊎◌, zero, inr, inl, length-drop, length-take, ◌&&◌, length-append, ltb, refl, Bool-cases, arith,
  suc, drop, length-replicate, take, length, ◌∷◌, ◌+◌, [], ◌≡◌, ◌<◌, ◌≤◌, ℕ, List, ◌++◌, ◌%◌, ◌^◌,
}

-- The bytes that were written and those in flight are the ones that were requested; what is in
-- flight lies inside the piece.
pub record IsSound (size : ℕ) (t : Transfer) : Type 0 where
  pub whole : length t.piece_data ≡ size
  pub count : t.written + total t.in_flight ≡ t.next_begin
  pub bound : t.next_begin ≤ size
  pub below : Below t.next_begin t.in_flight
  pub distinct : IsDistinct t.in_flight
  pub few : length t.in_flight ≤ max_inflight_per_peer

pub start-IsSound :
    (bitfield : List ℕ) (ut_pex_id window size : ℕ)
    → IsSound size (start bitfield ut_pex_id window size)
unfolding start total
start-IsSound bitfield ut_pex_id window size = record {
  whole = length-replicate size 0;
  count = refl;
  bound = omega arith;
  below = tt;
  distinct = tt;
  few = omega arith;
}

pub request-IsSound :
    (size idx : ℕ) (t : Transfer)
    → IsU32 size
    → t.next_begin < size
    → length t.in_flight < max_inflight_per_peer
    → IsSound size t
    → IsSound size (request size idx t)
unfolding request total
request-IsSound size idx t h l room s =
    let absent = find_block-Below t.next_begin t.next_begin t.in_flight s.below (omega arith) in
    let same = erase-absent t.next_begin t.in_flight absent in
    let next : (t.next_begin + block_len size t.next_begin) % 2 ^ 32
        ≡ t.next_begin + block_len size t.next_begin =
      omega (arith, len_fits) in
    record {
      whole = s.whole;
      count = rw same (omega (arith, s.count, next));
      bound = omega (arith, len_fits, next);
      below =
          rw (same, next)
            (len_some, omega arith, Below-weaken t.next_begin _ t.in_flight s.below (omega arith));
      distinct = rw same (absent, s.distinct);
      few = rw same (omega arith);
    }
  where
    len_some : 0 < block_len size t.next_begin
    len_some = unfold block_len in ground arith

    len_fits : t.next_begin + block_len size t.next_begin ≤ size
    len_fits = unfold block_len in ground arith

pub fill-IsSound :
    (f limit size idx : ℕ) (t : Transfer)
    → IsU32 size
    → limit ≤ max_inflight_per_peer
    → IsSound size t
    → IsSound size (fill f limit size idx t)
unfolding fill
fill-IsSound zero limit size idx t h lim s = s
fill-IsSound (suc f) limit size idx t h lim s =
    elim (Bool-cases (ltb (length t.in_flight) limit && ltb t.next_begin size)) [
      | inl e ↦ rw e (
          fill-IsSound f limit size idx (request size idx t) h lim
            (request-IsSound size idx t h (ground arith) (ground arith) s))
      | inr e ↦ rw e s
    ]

pub overlay_length :
    (off n : ℕ) (old block : List ℕ)
    → off + n ≤ length old
    → length block ≡ n
    → length (take off old ++ (block ++ drop (off + n) old)) ≡ length old
overlay_length off n old block h e = omega (
  arith,
  length-append (take off old) (block ++ drop (off + n) old),
  length-append block (drop (off + n) old),
  length-take off old,
  length-drop (off + n) old,
)

-- Messages as `ReadMessage` makes them.
abbrev pub IsReceivable : Message → Type 0
IsReceivable m = length m.payload < max_message_size

-- The other messages leave what the invariant speaks of alone.
pub same_window :
    (size : ℕ) (t : Transfer) (bitfield : List ℕ) (discovered : List PexPeer)
    → IsSound size t
    → IsSound size (record t { bitfield = bitfield; discovered = discovered })
same_window size t bitfield discovered s = record {
  whole = s.whole;
  count = s.count;
  bound = s.bound;
  below = s.below;
  distinct = s.distinct;
  few = s.few;
}

abbrev pub AreReceivable : List Event → Type 0
AreReceivable [] = Unit {0}
AreReceivable (received m ∷ es) = IsReceivable m × AreReceivable es
AreReceivable (cancelled ∷ es) = AreReceivable es
AreReceivable (send_failure ∷ es) = AreReceivable es
AreReceivable (read_failure ∷ es) = AreReceivable es

pub clamp-le : (limit : ℕ) → clamp limit ≤ max_inflight_per_peer
unfolding clamp
clamp-le limit = ground arith

-- The peers of an exchange on which the decoder panics.
abbrev pub PexPanics : Message → Type 0
PexPanics m = parse_ut_pex_peers (drop 1 m.payload) ≡ Outcome.panic

abbrev pub HasPexPanic : List Event → Type 0
HasPexPanic [] = ⊥
HasPexPanic (received m ∷ es) = PexPanics m ⊎ HasPexPanic es
HasPexPanic (cancelled ∷ es) = HasPexPanic es
HasPexPanic (send_failure ∷ es) = HasPexPanic es
HasPexPanic (read_failure ∷ es) = HasPexPanic es
