-- ===== src/Metadata/Never.antt =====
-- When the race over the peers for the description of a torrent does not return.
use bit_torrent.Metadata.Race.{Race}
