-- ===== src/Tracker/Announce.antt =====
-- What an announce to a UDP tracker answers.
use bit_torrent.Tracker.{
  TrackerError, connect_request, AnnounceRequest, connect_id_mismatch, unexpected_connect_action,
  no_connect_response, announce_id_mismatch, unexpected_announce_action, tracker_failure,
  announce_too_short, Peer, put_uint16, put_uint64, uint64, parse_peers_compact, announce_request,
  read_connect_response, read_announce_response, announce_udp_with_request,
}
use bit_torrent.Wire.Bytes.{
  put_uint32, uint32, uint32-put_uint32, put_uint32-bytes, length-put_uint32, IsByte, IsU32,
}
use bit_torrent.Wire.Handshake.{slice}
use bit_torrent.Base.{
  err, false, Result, ===→eq, none, Bool, guard, ◌>>◌, Option, drop-drop, ◌∷◌, ◌+◌, ◌-◌, ◌++◌, [],
  ◌≡◌, ◌<◌, ◌≤◌, ◌*◌, ◌/◌, ◌%◌, ◌^◌, ℕ, List, true, some, take, drop, length, ltb, not, ◌==◌, ◌===◌,
  ===_refl, ok, get_or, All, arith, refl, ap, ◌∙◌, sym, take_exact, drop_exact, take_all,
  length-append,
}

-- The entry of a peer in the compact list.
abbrev pub IsCompact : Peer → Type 0
IsCompact p = (length p.ip ≡ 4) × (p.port < 2 ^ 16)

unfoldable pub compact : List Peer → List ℕ
compact [] = []
compact (p ∷ ps) = p.ip ++ (put_uint16 p.port ++ compact ps)

parse-entry :
    (ip : List ℕ) (port : ℕ) (rest : List ℕ)
    → length ip ≡ 4
    → port < 2 ^ 16
    → parse_peers_compact (ip ++ (put_uint16 port ++ rest))
      ≡ record { ip = ip; port = port } ∷ parse_peers_compact rest
unfolding parse_peers_compact put_uint16
parse-entry (a ∷ (b ∷ (c ∷ (d ∷ [])))) port rest h k =
    ap (λ n. record { ip = a ∷ b ∷ c ∷ d ∷ []; port = n } ∷ parse_peers_compact rest)
      {x = port / 256 % 256 * 256 + port % 256} {y = port} (omega arith)
parse-entry [] port rest h k = absurd (omega arith)
parse-entry (a ∷ []) port rest h k = absurd (omega arith)
parse-entry (a ∷ (b ∷ [])) port rest h k = absurd (omega arith)
parse-entry (a ∷ (b ∷ (c ∷ []))) port rest h k = absurd (omega arith)
parse-entry (a ∷ (b ∷ (c ∷ (d ∷ (e ∷ es))))) port rest h k = absurd (omega arith)

parse_peers_compact-compact :
    (ps : List Peer) → All IsCompact ps → parse_peers_compact (compact ps) ≡ ps
unfolding compact
parse_peers_compact-compact [] h = unfold parse_peers_compact in refl
parse_peers_compact-compact (p ∷ ps) h =
    parse-entry p.ip p.port (compact ps) h.0.0 h.0.1
    ∙ ap (◌∷◌ p) (parse_peers_compact-compact ps h.1)

pub slice_exact :
    (m n : ℕ) (xs ys zs : List ℕ)
    → length xs ≡ m
    → length ys ≡ n - m
    → slice m n (xs ++ (ys ++ zs)) ≡ ys
slice_exact m n xs ys zs h k =
    ap (take (n - m)) (drop_exact m xs (ys ++ zs) h) ∙ take_exact (n - m) ys zs k

put_uint64-words :
    (x y : ℕ) → IsU32 x → IsU32 y → put_uint64 (x * 2 ^ 32 + y) ≡ put_uint32 x ++ put_uint32 y
unfolding put_uint64
put_uint64-words x y hx hy =
    ap (λ z. put_uint32 z ++ put_uint32 ((x * 2 ^ 32 + y) % 2 ^ 32)) {y = x} (omega arith)
    ∙ ap (λ z. put_uint32 x ++ put_uint32 z) {y = y} (omega arith)

-- The connection ID is sent back as it came.
put_uint64-uint64 : (id : List ℕ) → length id ≡ 8 → All IsByte id → put_uint64 (uint64 id) ≡ id
unfolding uint64 uint32
put_uint64-uint64 (a ∷ (b ∷ (c ∷ (d ∷ (e ∷ (f ∷ (g ∷ (h ∷ [])))))))) len bytes =
    let (ha, (hb, (hc, (hd, (he, (hf, (hg, (hh, nothing)))))))) = bytes in
    put_uint64-words (a * 2 ^ 24 + b * 2 ^ 16 + c * 2 ^ 8 + d)
      (e * 2 ^ 24 + f * 2 ^ 16 + g * 2 ^ 8 + h) (omega arith) (omega arith)
    ∙ ap (λ w. w ++ put_uint32 (e * 2 ^ 24 + f * 2 ^ 16 + g * 2 ^ 8 + h))
        (put_uint32-bytes a b c d ha hb hc hd)
    ∙ ap (λ w. (a ∷ b ∷ c ∷ d ∷ []) ++ w) (put_uint32-bytes e f g h he hf hg hh)
put_uint64-uint64 [] len bytes = absurd (omega arith)
put_uint64-uint64 (a ∷ []) len bytes = absurd (omega arith)
put_uint64-uint64 (a ∷ (b ∷ [])) len bytes = absurd (omega arith)
put_uint64-uint64 (a ∷ (b ∷ (c ∷ []))) len bytes = absurd (omega arith)
put_uint64-uint64 (a ∷ (b ∷ (c ∷ (d ∷ [])))) len bytes = absurd (omega arith)
put_uint64-uint64 (a ∷ (b ∷ (c ∷ (d ∷ (e ∷ []))))) len bytes = absurd (omega arith)
put_uint64-uint64 (a ∷ (b ∷ (c ∷ (d ∷ (e ∷ (f ∷ [])))))) len bytes = absurd (omega arith)
put_uint64-uint64 (a ∷ (b ∷ (c ∷ (d ∷ (e ∷ (f ∷ (g ∷ []))))))) len bytes = absurd (omega arith)
put_uint64-uint64 (a ∷ (b ∷ (c ∷ (d ∷ (e ∷ (f ∷ (g ∷ (h ∷ (i ∷ is))))))))) len bytes =
    absurd (omega arith)

enough_bytes : (n m : ℕ) → m ≤ n → not (ltb n m) ≡ true
enough_bytes n m h = ground arith

connect-accepted :
    (tx id : List ℕ)
    → length tx ≡ 4
    → length id ≡ 8
    → read_connect_response tx (some (put_uint32 0 ++ (tx ++ id))) ≡ ok (uint64 id)
unfolding read_connect_response
connect-accepted tx id ht hi =
    let resp = put_uint32 0 ++ (tx ++ id) in
    let four = length-put_uint32 0 in
    let size : length resp ≡ 16 =
      omega (arith, four, length-append (put_uint32 0) (tx ++ id), length-append tx id) in
    let whole = take_all 16 resp (omega arith) in
    let enough : not (ltb (length resp) 16) ≡ true = enough_bytes (length resp) 16 (omega arith) in
    let action : (uint32 resp == 0) ≡ true =
      rw (uint32-put_uint32 0 (tx ++ id) (omega arith)) refl in
    let same : (slice 4 8 resp === tx) ≡ true =
      rw (slice_exact 4 8 (put_uint32 0) tx id four ht) (===_refl tx) in
    let rest : slice 8 16 resp ≡ id =
      ap (take 8) (
        sym (drop-drop 4 4 resp)
        ∙ ap (drop 4) (drop_exact 4 (put_uint32 0) (tx ++ id) four)
        ∙ drop_exact 4 tx id ht)
      ∙ take_all 8 id (omega arith) in
    rw (whole, enough, action, same, rest) refl

announce-accepted :
    (tx stats : List ℕ) (ps : List Peer)
    → length tx ≡ 4
    → length stats ≡ 12
    → All IsCompact ps
    → length (compact ps) ≤ 65516
    → read_announce_response tx (some (put_uint32 1 ++ (tx ++ (stats ++ compact ps)))) ≡ ok ps
unfolding read_announce_response
announce-accepted tx stats ps ht hs hp small =
    let resp = put_uint32 1 ++ (tx ++ (stats ++ compact ps)) in
    let four = length-put_uint32 1 in
    let size : length resp ≡ 20 + length (compact ps) = omega (
      arith,
      four,
      length-append (put_uint32 1) (tx ++ (stats ++ compact ps)),
      length-append tx (stats ++ compact ps),
      length-append stats (compact ps),
    ) in
    let whole = take_all 65536 resp (omega arith) in
    let enough : not (ltb (length resp) 20) ≡ true = enough_bytes (length resp) 20 (omega arith) in
    let action : uint32 resp ≡ 1 =
      uint32-put_uint32 1 (tx ++ (stats ++ compact ps)) (omega arith) in
    let same : (slice 4 8 resp === tx) ≡ true =
      rw (slice_exact 4 8 (put_uint32 1) tx (stats ++ compact ps) four ht) (===_refl tx) in
    let rest : drop 20 resp ≡ compact ps =
      sym (drop-drop 16 4 resp)
      ∙ ap (drop 16) (drop_exact 4 (put_uint32 1) (tx ++ (stats ++ compact ps)) four)
      ∙ sym (drop-drop 12 4 (tx ++ (stats ++ compact ps)))
      ∙ ap (drop 12) (drop_exact 4 tx (stats ++ compact ps) ht)
      ∙ drop_exact 12 stats (compact ps) hs in
    rw (whole, enough, action, same, rest, parse_peers_compact-compact ps hp) refl

announce_request-id :
    (id tx key : List ℕ) (req : AnnounceRequest)
    → length id ≡ 8
    → All IsByte id
    → take 8 (announce_request (uint64 id) tx key req) ≡ id
unfolding announce_request put_uint32
announce_request-id id tx key req h bytes =
    ap (λ w. take 8 (w ++ drop 8 (announce_request (uint64 id) tx key req)))
      (put_uint64-uint64 id h bytes)
    ∙ take_exact 8 id _ h

announce_udp-connected :
    (tx1 tx2 key : List ℕ) (req : AnnounceRequest) (first second : Option (List ℕ)) (n : ℕ)
    → read_connect_response tx1 first ≡ ok n
    → announce_udp_with_request tx1 tx2 key req first second ≡ (
      connect_request tx1 ∷ announce_request n tx2 key req ∷ [],
      read_announce_response tx2 second,
    )
unfolding announce_udp_with_request connect_request announce_request read_announce_response
announce_udp-connected tx1 tx2 key req first second n e = rw (announce_udp_with_request, e) refl

announce_udp-refused :
    (tx1 tx2 key : List ℕ) (req : AnnounceRequest) (first second : Option (List ℕ))
    (x : TrackerError)
    → read_connect_response tx1 first ≡ err x
    → (announce_udp_with_request tx1 tx2 key req first second).1 ≡ err x
unfolding announce_udp_with_request connect_request announce_request read_announce_response
announce_udp-refused tx1 tx2 key req first second x e = rw (announce_udp_with_request, e) refl

-- An honest tracker is understood: where it answers the two requests with their transaction IDs, the
-- announce carries the connection ID that it gave, and what is answered are the peers of its list.
-- Transaction IDs are of four bytes and the connection ID of eight; the list fits into a datagram.
pub announce_udp_with_request-compact :
    (tx1 tx2 key id stats : List ℕ) (req : AnnounceRequest) (ps : List Peer)
    → length tx1 ≡ 4
    → length tx2 ≡ 4
    → length stats ≡ 12
    → length id ≡ 8
    → All IsByte id
    → All IsCompact ps
    → length (compact ps) ≤ 65516
    → let (sent, answer) =
        announce_udp_with_request tx1 tx2 key req
          (some (put_uint32 0 ++ (tx1 ++ id)))
          (some (put_uint32 1 ++ (tx2 ++ (stats ++ compact ps)))) in
      (take 8 (get_or sent 1 []) ≡ id) × (answer ≡ ok ps)
announce_udp_with_request-compact tx1 tx2 key id stats req ps h1 h2 hs hi bytes hp small =
    let second = some (put_uint32 1 ++ (tx2 ++ (stats ++ compact ps))) in
    let run =
      announce_udp-connected tx1 tx2 key req (some (put_uint32 0 ++ (tx1 ++ id))) second (uint64 id)
        (connect-accepted tx1 id h1 hi) in
    (
      ap (λ r. take 8 (get_or r.0 1 [])) run ∙ announce_request-id id tx2 key req hi bytes,
      ap (λ r. r.1) run ∙ announce-accepted tx2 stats ps h2 hs hp small,
    )

guarded :
    {E A : Type 0} (b : Bool) (x : E) (m : Result E A) (a : A)
    → (guard b x >> m) ≡ ok a
    → (b ≡ true) × (m ≡ ok a)
guarded true x m a e = (refl, e)
guarded false x m a e = absurd (ground arith)

-- A datagram, cut to the size of the buffer, that answers a request.
abbrev pub Answers : ℕ → List ℕ → ℕ → Option (List ℕ) → Type 0
Answers size tx action none = ⊥
Answers size tx action (some datagram) =
    (uint32 (take size datagram) ≡ action) × (slice 4 8 (take size datagram) ≡ tx)

equals : (n m : ℕ) → (n == m) ≡ true → n ≡ m
equals n m e = ground arith

read_announce_response-Answers :
    (tx : List ℕ) (second : Option (List ℕ)) (ps : List Peer)
    → read_announce_response tx second ≡ ok ps
    → Answers 65536 tx 1 second
unfolding read_announce_response
read_announce_response-Answers tx none ps e = absurd (ground arith)
read_announce_response-Answers tx (some datagram) ps e =
    let resp = take 65536 datagram in
    let found : Result TrackerError (List Peer) = ok (parse_peers_compact (drop 20 resp)) in
    let m3 = guard (slice 4 8 resp === tx) announce_id_mismatch >> found in
    let m2 = guard (uint32 resp == 1) unexpected_announce_action >> m3 in
    let m1 = guard (not (uint32 resp == 3)) (tracker_failure (drop 8 resp)) >> m2 in
    let (long, e1) = guarded (not (ltb (length resp) 20)) announce_too_short m1 ps e in
    let (fine, e2) = guarded (not (uint32 resp == 3)) (tracker_failure (drop 8 resp)) m2 ps e1 in
    let (action, e3) = guarded (uint32 resp == 1) unexpected_announce_action m3 ps e2 in
    let (same, e4) = guarded (slice 4 8 resp === tx) announce_id_mismatch found ps e3 in
    (equals (uint32 resp) 1 action, ===→eq (slice 4 8 resp) tx same)

read_connect_response-Answers :
    (tx : List ℕ) (first : Option (List ℕ)) (n : ℕ)
    → read_connect_response tx first ≡ ok n
    → Answers 16 tx 0 first
unfolding read_connect_response
read_connect_response-Answers tx none n e = absurd (ground arith)
read_connect_response-Answers tx (some datagram) n e =
    let resp = take 16 datagram in
    let found : Result TrackerError ℕ = ok (uint64 (slice 8 16 resp)) in
    let m2 = guard (slice 4 8 resp === tx) connect_id_mismatch >> found in
    let m1 = guard (uint32 resp == 0) unexpected_connect_action >> m2 in
    let (long, e1) = guarded (not (ltb (length resp) 16)) no_connect_response m1 n e in
    let (action, e2) = guarded (uint32 resp == 0) unexpected_connect_action m2 n e1 in
    let (same, e3) = guarded (slice 4 8 resp === tx) connect_id_mismatch found n e2 in
    (equals (uint32 resp) 0 action, ===→eq (slice 4 8 resp) tx same)

connected :
    (tx1 tx2 key : List ℕ) (req : AnnounceRequest) (first second : Option (List ℕ)) (ps : List Peer)
    (r : Result TrackerError ℕ)
    → read_connect_response tx1 first ≡ r
    → (announce_udp_with_request tx1 tx2 key req first second).1 ≡ ok ps
    → (n : ℕ) × (read_connect_response tx1 first ≡ ok n)
      × (read_announce_response tx2 second ≡ ok ps)
connected tx1 tx2 key req first second ps (ok n) e h =
    (n, e, sym (ap (λ r. r.1) (announce_udp-connected tx1 tx2 key req first second n e)) ∙ h)
connected tx1 tx2 key req first second ps (err x) e h =
    absurd (refused (sym (announce_udp-refused tx1 tx2 key req first second x e) ∙ h))
  where
    refused : err x ≡ ok ps → ⊥
    refused c = ground arith

-- Peers are taken only from a tracker that answered both requests, each with the action of the
-- request and with its transaction ID.
pub announce_udp_with_request-Answers :
    (tx1 tx2 key : List ℕ) (req : AnnounceRequest) (first second : Option (List ℕ)) (ps : List Peer)
    → (announce_udp_with_request tx1 tx2 key req first second).1 ≡ ok ps
    → Answers 16 tx1 0 first × Answers 65536 tx2 1 second
announce_udp_with_request-Answers tx1 tx2 key req first second ps h =
    let (n, c, a) =
      connected tx1 tx2 key req first second ps (read_connect_response tx1 first) refl h in
    (read_connect_response-Answers tx1 first n c, read_announce_response-Answers tx2 second ps a)
