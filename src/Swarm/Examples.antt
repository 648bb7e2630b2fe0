-- ===== src/Swarm/Examples.antt =====
-- Paths of a torrent.
use bit_torrent.Swarm.{sanitize_path_parts}
use bit_torrent.Swarm.Paths.{sanitize_path_parts-IsPlain, IsPlain}
use bit_torrent.Wire.Handshake.{codes}
use bit_torrent.Base.{ℕ, List, ◌∷◌, [], All}

abbrev no_trim : List ℕ → List ℕ
no_trim p = p

sanitize_path_parts-IsPlain_example :
    All IsPlain (sanitize_path_parts no_trim (codes ".." ∷ codes "a/b" ∷ []))
sanitize_path_parts-IsPlain_example =
    sanitize_path_parts-IsPlain no_trim (codes ".." ∷ codes "a/b" ∷ [])

abbrev own_key : List ℕ → List ℕ
own_key p = p
