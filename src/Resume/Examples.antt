-- ===== src/Resume/Examples.antt =====
-- A download of ten bytes in pieces of four.
use bit_torrent.Resume.{new_download_state, DownloadState}
use bit_torrent.Base.{[]}

abbrev fresh : DownloadState
fresh = new_download_state [] [] 10 4
