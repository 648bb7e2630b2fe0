-- ===== src/Metadata/Examples.antt =====
-- A description of one piece, with one hash.
use bit_torrent.Metadata.Race.{Came, Race, Worker, Verdict, Step, Reach}
use bit_torrent.Metadata.Settled.{IsRight, Reach-IsRight}
use bit_torrent.Metadata.Moves.{Stays, Moves, weight, Reach-Moves}
use bit_torrent.Metadata.Honest.{Serves, exchange-Serves}
use bit_torrent.Metadata.Messages.{IsHeader, replies, handshake_message}
use bit_torrent.Metadata.Genuine.{fetch_metadata_genuine}
use bit_torrent.Metadata.Info.{InfoDict, decode_info_dict}
use bit_torrent.Metadata.{read_info, exchange, fetch_metadata, ok}
use bit_torrent.Bencode.Emit.{
  emit, emit_string, IsString, IsValue, entry_ok, end_ok, dict_ok, num_ok,
}
use bit_torrent.Bencode.Value.{Entries, Outcome, entry, end, dict, num}
use bit_torrent.Wire.Handshake.{codes, handshake_pstr, extension_bit}
use bit_torrent.Wire.Bytes.{read_full-append}
use bit_torrent.Wire.Message.{encode}
use bit_torrent.Base.{
  ◌⊎◌, Any, ◌==◌, if◌then◌else◌, Option, ◌∙◌, ◌∷◌, ◌+◌, [], ◌≡◌, ◌<◌, ◌≤◌, ℕ, List, pos, some, none,
  refl, arith, length, take, replicate, ◌++◌, ◌*◌, ◌/◌, ◌-◌, false,
}

abbrev short_hash : List ℕ → List ℕ
short_hash b = take 20 b

abbrev description : List ℕ
description = codes "d6:pieces20:abcdefghijklmnopqrste"

abbrev asked_hash : List ℕ
asked_hash = short_hash description

-- `d1:md11:ut_metadatai3ee13:metadata_sizei33ee` and `d8:msg_typei1ee`
abbrev extensions : Entries
extensions = entry (codes "ut_metadata") (num (pos 3)) end

abbrev our_peer : Entries
our_peer = entry (codes "m") (dict extensions) (entry (codes "metadata_size") (num (pos 33)) end)

abbrev data_header : ℕ → Entries
data_header i = entry (codes "msg_type") (num (pos 1)) end

data_header-IsValue : (i : ℕ) → IsValue (dict (data_header i))
unfolding emit_string bit_torrent.Bencode.Numerals.show bit_torrent.Bencode.Value.lookup
    bit_torrent.Base.◌===◌
data_header-IsValue i =
    dict_ok _ (refl, tt) (entry_ok _ _ _ (omega arith) (num_ok (pos 1) (omega arith)) end_ok)

our_peer-IsValue : IsValue (dict our_peer)
unfolding emit_string bit_torrent.Bencode.Numerals.show bit_torrent.Bencode.Value.lookup
    bit_torrent.Base.◌===◌
our_peer-IsValue =
    dict_ok _ (refl, (refl, tt))
      (entry_ok _ _ _ (omega arith)
        (dict_ok _ (refl, tt) (entry_ok _ _ _ (omega arith) (num_ok (pos 3) (omega arith)) end_ok))
        (entry_ok _ _ _ (omega arith) (num_ok (pos 33) (omega arith)) end_ok))

data_header-IsHeader : (i : ℕ) → IsHeader 200 (data_header i)
unfolding emit bit_torrent.Bencode.Emit.emit_int bit_torrent.Bencode.Numerals.show emit_string
    bit_torrent.Bencode.Value.lookup bit_torrent.Base.◌===◌
data_header-IsHeader i = record {
  value = data_header-IsValue i;
  is_data = refl;
  short = omega arith;
  fuel = omega arith;
}

description-Serves : Serves 200 description our_peer data_header
unfolding emit bit_torrent.Bencode.Emit.emit_int bit_torrent.Bencode.Numerals.show emit_string
    bit_torrent.Bencode.Value.lookup bit_torrent.Base.◌===◌ bit_torrent.Metadata.meta_id
    bit_torrent.Bencode.Value.as_int bit_torrent.Bencode.Value.as_dict
description-Serves = record {
  some_bytes = omega arith;
  accepted = omega arith;
  handshake = our_peer-IsValue;
  handshake_short = omega arith;
  id = 3;
  id_positive = omega arith;
  announced = refl;
  announced_size = refl;
  headers = data_header-IsHeader;
}

exchange-Serves_example :
    exchange short_hash 200 asked_hash
      (encode (handshake_message our_peer) ++ (replies data_header description 1 0 ++ []))
    ≡ read_info description
exchange-Serves_example =
    exchange-Serves short_hash 200 asked_hash description [] our_peer data_header description-Serves
      refl

-- The connection with a peer that serves it.
abbrev served : List ℕ
served = encode (handshake_message our_peer) ++ (replies data_header description 1 0 ++ [])

abbrev hello : List ℕ
hello = 19 ∷ (handshake_pstr ++ (extension_bit ++ (asked_hash ++ replicate 20 7)))

abbrev described : InfoDict
described = record {
  name = [];
  length = pos 0;
  piece_length = pos 0;
  private = false;
  piece_hashes = codes "abcdefghijklmnopqrst" ∷ [];
  files = [];
}

description-decoded : decode_info_dict description ≡ Outcome.ok (some described)
unfolding decode_info_dict bit_torrent.Metadata.Info.info_dict bit_torrent.Metadata.Info.hashes
    bit_torrent.Metadata.Info.total_length bit_torrent.Bencode.Value.lookup bit_torrent.Base.◌===◌
    bit_torrent.Bencode.Value.as_string bit_torrent.Bencode.Value.as_int
    bit_torrent.Bencode.Value.as_list bit_torrent.Bencode.Decode.decode_bencode_value
    bit_torrent.Bencode.Decode.decode bit_torrent.Bencode.Decode.decode_string
    bit_torrent.Bencode.Decode.cut_string bit_torrent.Bencode.Scan.index_byte
    bit_torrent.Bencode.Scan.is_digit bit_torrent.Bencode.Scan.is_negative
    bit_torrent.Bencode.Scan.string_length bit_torrent.Bencode.Decode.as_key
    bit_torrent.Bencode.Value.put
description-decoded = refl

fetch-hello :
    (rest : List ℕ)
    → fetch_metadata short_hash 200 (hello ++ rest) asked_hash (replicate 20 1)
      ≡ exchange short_hash 200 asked_hash rest
unfolding fetch_metadata bit_torrent.Wire.Handshake.handshake_with_ext_bit bit_torrent.Base.◌===◌
fetch-hello rest =
    rw
      (
        fetch_metadata,
        bit_torrent.Wire.Handshake.handshake_with_ext_bit,
        read_full-append hello rest,
      )
      refl

fetched : fetch_metadata short_hash 200 (hello ++ served) asked_hash (replicate 20 1) ≡ ok described
unfolding read_info bit_torrent.Metadata.or_bad_info
fetched =
    fetch-hello served
    ∙ exchange-Serves short_hash 200 asked_hash description [] our_peer data_header
        description-Serves refl
    ∙ rw (read_info, description-decoded) refl

fetch_metadata_genuine_example :
    (assembled : List ℕ) × (short_hash assembled ≡ asked_hash)
    × (decode_info_dict assembled ≡ Outcome.ok (some described))
    × (length assembled ≤ 10 * 1024 * 1024)
fetch_metadata_genuine_example =
    fetch_metadata_genuine short_hash 200 (hello ++ served) asked_hash (replicate 20 1) described
      fetched

-- Two peers, of which the second one has the description 7.
abbrev of_two : ℕ → Came ℕ
of_two p = if p == 2 then Came.gave 7 else Came.gave_up

abbrev two_peers : List ℕ
two_peers = 1 ∷ 2 ∷ []

abbrev one_tried : Race of_two
one_tried = record {
  feed = 2 ∷ [];
  workers = Worker.trying 1 ∷ Worker.idle ∷ [];
  results = [];
  received = 0;
  verdict = Verdict.running;
}

abbrev second_wins : Race of_two
second_wins = record {
  feed = [];
  workers = Worker.trying 1 ∷ Worker.done ∷ [];
  results = [];
  received = 0;
  verdict = Verdict.found 7;
}

to_one_tried : Reach of_two two_peers one_tried
unfolding bit_torrent.Metadata.Race.start_race
to_one_tried = Reach.step Reach.start (Step.hand_over 1 (2 ∷ []) [] (Worker.idle ∷ []) [] 0)

to_second_wins : Reach of_two two_peers second_wins
to_second_wins =
    Reach.step
      (Reach.step (Reach.step to_one_tried (Step.hand_over 2 [] (Worker.trying 1 ∷ []) [] [] 0))
        (Step.answered [] 2 7 (Worker.trying 1 ∷ []) [] [] 0 refl))
      (Step.return_found [] (Worker.trying 1 ∷ Worker.done ∷ []) 7 [] 0 (omega arith))

Reach-IsRight_example : IsRight of_two two_peers (Verdict.found 7)
Reach-IsRight_example = Reach-IsRight of_two two_peers to_second_wins

Reach-Moves_example :
    (Moves of_two 2 one_tried ⊎ Any (Stays of_two) one_tried.workers)
    × ((t : Race of_two) → Step of_two 2 one_tried t → weight of_two t < weight of_two one_tried)
Reach-Moves_example = Reach-Moves of_two two_peers to_one_tried refl

-- A peer whose description is the list that bencodeLen never gets past.
abbrev of_one : ℕ → Came ℕ
of_one p = Came.never

abbrev held : Race of_one
held = record {
  feed = [];
  workers = Worker.trying 1 ∷ [];
  results = [];
  received = 0;
  verdict = Verdict.running;
}
