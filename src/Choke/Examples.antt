-- ===== src/Choke/Examples.antt =====
-- A round with two peers, whose addresses are their keys.
use bit_torrent.Choke.Cap.{decide_unchokes_cap, IsDistinct, unchoked_count}
use bit_torrent.Choke.{
  decide_unchokes, contains, keys, find, new_unchoke_round, PeerStats, register_peer, UnchokeRound,
}
use bit_torrent.Base.{refl, ◌≤◌, [], ◌∷◌, pos, ℕ, List}

abbrev who : List ℕ → List ℕ
who k = k

abbrev same_order : List (PeerStats (List ℕ)) → List (PeerStats (List ℕ))
same_order ss = ss

abbrev started : UnchokeRound (List ℕ)
started = register_peer who (register_peer who (new_unchoke_round (pos 1)) (7 ∷ []) 1) (8 ∷ []) 2

started-IsDistinct : IsDistinct who started.peers
unfolding register_peer new_unchoke_round find keys contains bit_torrent.Base.◌===◌
started-IsDistinct = (refl, (refl, tt))

decide_unchokes_cap_example :
    unchoked_count who (decide_unchokes who same_order started).0.peers ≤ 1
unfolding register_peer new_unchoke_round find bit_torrent.Base.◌===◌
decide_unchokes_cap_example = decide_unchokes_cap who same_order started started-IsDistinct
