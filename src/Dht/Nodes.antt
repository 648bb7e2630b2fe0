-- ===== src/Dht/Nodes.antt =====
-- The compact list of nodes in an answer of the DHT: twenty-six bytes for each node.
use bit_torrent.Dht.{Candidate, node}
use bit_torrent.Dht.Query.{nodes_from, parse_nodes}
use bit_torrent.Tracker.{put_uint16}
use bit_torrent.Tracker.Announce.{slice_exact}
use bit_torrent.Wire.Handshake.{slice}
use bit_torrent.Base.{
  ℕ, zero, suc, List, [], ◌∷◌, ◌++◌, ◌+◌, ◌*◌, ◌/◌, ◌%◌, ◌^◌, ◌<◌, ◌≤◌, ◌≡◌, Bool, true, false,
  ◌==◌, leb, get_or, length, length-append, append_assoc, if◌then◌else◌, All, refl, sym, ap, subst,
  ◌∙◌, arith,
}

-- A node as BEP 5 describes it.
pub record NodeInfo : Type 0 where
  pub id : List ℕ
  pub ip : List ℕ
  pub port : ℕ

abbrev pub IsNode : NodeInfo → Type 0
IsNode n = (length n.id ≡ 20) × (length n.ip ≡ 4) × (n.port < 2 ^ 16)

-- The compact node info of BEP 5.
unfoldable pub compact_nodes : List NodeInfo → List ℕ
unfolding put_uint16
compact_nodes [] = []
compact_nodes (n ∷ ns) = n.id ++ (n.ip ++ (put_uint16 n.port ++ compact_nodes ns))

-- The candidates for the nodes that have a port.
abbrev pub with_port : (List ℕ → ℕ → List ℕ) → List NodeInfo → List Candidate
with_port host_port [] = []
with_port host_port (n ∷ ns) =
    if n.port == 0
    then with_port host_port ns
    else node n.id (host_port n.ip n.port) ∷ with_port host_port ns

get_or-at :
    (n : ℕ) (xs ys : List ℕ) (i : ℕ) → n ≡ length xs + i → get_or (xs ++ ys) n 0 ≡ get_or ys i 0
get_or-at n [] ys i h = ap (λ k. get_or ys k 0) {x = n} {y = i} (omega (arith, h))
get_or-at zero (x ∷ xs) ys i h = absurd (omega (arith, h))
get_or-at (suc n) (x ∷ xs) ys i h = get_or-at n xs ys i (omega (arith, h))

fuel_enough : (ns : List NodeInfo) → All IsNode ns → length ns ≤ length (compact_nodes ns)
unfolding compact_nodes
fuel_enough [] h = omega arith
fuel_enough (n ∷ ns) ((i, k, p), h) = omega (
  arith,
  length-append n.id (n.ip ++ (put_uint16 n.port ++ compact_nodes ns)),
  i,
  length-append n.ip (put_uint16 n.port ++ compact_nodes ns),
  length-append (put_uint16 n.port) (compact_nodes ns),
  fuel_enough ns h,
)

module _ (host_port : List ℕ → ℕ → List ℕ) where
  pick :
      (room : Bool) (port' port : ℕ) (i' i ip' ip : List ℕ) (rest : List Candidate)
      → room ≡ true
      → port' ≡ port
      → i' ≡ i
      → ip' ≡ ip
      → (if room then (if port' == 0 then rest else node i' (host_port ip' port') ∷ rest) else [])
        ≡ (if port == 0 then rest else node i (host_port ip port) ∷ rest)
  pick room port' port i' i ip' ip rest e f g h = rw (e, f, g, h) refl

  -- A turn of the loop at a node.
  turn :
      (left at : ℕ) (pre i ip tail : List ℕ) (port : ℕ)
      → length pre ≡ at
      → length i ≡ 20
      → length ip ≡ 4
      → port < 2 ^ 16
      → let bytes = pre ++ (i ++ (ip ++ (put_uint16 port ++ tail))) in
        let rest = nodes_from host_port left (at + 26) bytes in
        nodes_from host_port (suc left) at bytes
        ≡ (if port == 0 then rest else node i (host_port ip port) ∷ rest)
  unfolding nodes_from put_uint16
  turn left at pre i ip tail port h j k p =
      let bytes = pre ++ (i ++ (ip ++ (put_uint16 port ++ tail))) in
      let ports = put_uint16 port ++ tail in
      let two : bytes ≡ (pre ++ i) ++ (ip ++ ports) = sym (append_assoc pre i (ip ++ ports)) in
      let three : bytes ≡ ((pre ++ i) ++ ip) ++ ports =
        two ∙ sym (append_assoc (pre ++ i) ip ports) in
      let l : length (pre ++ i) ≡ at + 20 = omega (arith, length-append pre i, h, j) in
      let m : length ((pre ++ i) ++ ip) ≡ at + 24 =
        omega (arith, length-append (pre ++ i) ip, l, k) in
      pick (leb (at + 26) (length bytes))
        (get_or bytes (at + 24) 0 * 256 + get_or bytes (at + 25) 0) port (slice at (at + 20) bytes)
        i (slice (at + 20) (at + 24) bytes) ip (nodes_from host_port left (at + 26) bytes)
        (room (length bytes) (ap length three ∙ length-append ((pre ++ i) ++ ip) ports) m)
        (word (get_or bytes (at + 24) 0) (get_or bytes (at + 25) 0)
          (subst (λ b. get_or b (at + 24) 0 ≡ port / 256 % 256) (sym three)
            (get_or-at (at + 24) ((pre ++ i) ++ ip) ports 0 (omega (arith, m))))
          (subst (λ b. get_or b (at + 25) 0 ≡ port % 256) (sym three)
            (get_or-at (at + 25) ((pre ++ i) ++ ip) ports 1 (omega (arith, m)))))
        (slice_exact at (at + 20) pre i (ip ++ ports) h (omega (arith, j)))
        (ap (slice (at + 20) (at + 24)) two
          ∙ slice_exact (at + 20) (at + 24) (pre ++ i) ip ports l (omega (arith, k)))
    where
      room :
          (n : ℕ)
          → n ≡ length ((pre ++ i) ++ ip) + suc (suc (length tail))
          → length ((pre ++ i) ++ ip) ≡ at + 24
          → leb (at + 26) n ≡ true
      room n e f = ground (arith, e, f)

      word : (x y : ℕ) → x ≡ port / 256 % 256 → y ≡ port % 256 → x * 256 + y ≡ port
      word x y e f = omega (arith, e, f, p)

  -- The loop over the nodes that are left, and over fewer than twenty-six bytes more.
  nodes_from-compact_nodes :
      (left at : ℕ) (pre : List ℕ) (ns : List NodeInfo) (rest : List ℕ)
      → length pre ≡ at
      → All IsNode ns
      → length rest < 26
      → length ns < left
      → nodes_from host_port left at (pre ++ (compact_nodes ns ++ rest)) ≡ with_port host_port ns
  unfolding compact_nodes
  nodes_from-compact_nodes zero at pre ns rest h g r f = absurd (omega (arith, f))
  nodes_from-compact_nodes (suc left) at pre [] rest h g r f =
      unfold nodes_from in
      stop (leb (at + 26) (length (pre ++ rest))) _
        (over (length (pre ++ rest)) (length-append pre rest))
    where
      stop : (b : Bool) (x : List Candidate) → b ≡ false → (if b then x else []) ≡ []
      stop b x e = rw e refl

      over : (n : ℕ) → n ≡ length pre + length rest → leb (at + 26) n ≡ false
      over n e = ground (arith, e, h, r)
  nodes_from-compact_nodes (suc left) at pre (n ∷ ns) rest h ((i, k, p), g) r f =
      let head = n.id ++ (n.ip ++ put_uint16 n.port) in
      let tail = compact_nodes ns ++ rest in
      let whole : List ℕ = pre ++ (n.id ++ (n.ip ++ (put_uint16 n.port ++ tail))) in
      let flat : pre ++ (compact_nodes (n ∷ ns) ++ rest) ≡ whole = simp append_assoc refl in
      let apart : whole ≡ (pre ++ head) ++ tail = simp append_assoc refl in
      let size : length (pre ++ head) ≡ at + 26 = omega (
        arith,
        length-append pre head,
        length-append n.id (n.ip ++ put_uint16 n.port),
        length-append n.ip (put_uint16 n.port),
        h,
        i,
        k,
      ) in
      let others =
        nodes_from-compact_nodes left (at + 26) (pre ++ head) ns rest size g r (omega (arith, f)) in
      ap (nodes_from host_port (suc left) at) flat
      ∙ turn left at pre n.id n.ip tail n.port h i k p
      ∙ ap (λ x. if n.port == 0 then x else node n.id (host_port n.ip n.port) ∷ x)
          (ap (nodes_from host_port left (at + 26)) apart ∙ others)

  -- The candidates in the compact list of any nodes, with fewer than twenty-six bytes left over, are
  -- the nodes whose port is not 0, in their order.
  pub parse_nodes-compact_nodes :
      (ns : List NodeInfo) (rest : List ℕ)
      → All IsNode ns
      → length rest < 26
      → parse_nodes host_port (compact_nodes ns ++ rest) ≡ with_port host_port ns
  unfolding parse_nodes
  parse_nodes-compact_nodes ns rest h r =
      nodes_from-compact_nodes (suc (length (compact_nodes ns ++ rest))) 0 [] ns rest refl h r
        (omega (arith, length-append (compact_nodes ns) rest, fuel_enough ns h))
