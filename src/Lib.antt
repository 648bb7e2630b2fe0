-- ===== src/Lib.antt =====
-- A BitTorrent client: what it reads from and writes to peers, how it keeps a torrent's pieces on
-- disk, how it treats the peers that serve it and that it serves. The client finds peers
-- (trackers, DHT, peer exchange), fetches the description of a torrent from a file or from peers,
-- downloads its pieces in parallel and serves the ones it has.
--
-- Base: shared names, Boolean tests on the native numbers, lists over them, error results.
--
-- Wire: internal/protocol/protocol.go and handshakeWithExtBit of internal/protocol/metadata.go. A
-- connection is the list of the bytes that are still to arrive on it; ReadMessage and
-- ReadHandshakeFull answer what they read and what is left. Deadlines, and the errors of a failing
-- write, are left to the network: a read fails when too few bytes arrive. A message ID is an
-- integer, as in Go, and -1 is a keep-alive.
--
-- Bencode: decodeBencodeValue and bencodeLen of internal/protocol/metadata.go, and the copy
-- decodeBencodeValueDL in internal/downloader/downloader.go. An answer is a value, an error, a
-- panic (a slice out of range), or that the fuel was used up. Twice the length of the data and one
-- is enough fuel for the decoder. bencodeLen takes any fuel, since it has none that is always
-- enough. A length of a string is a 64-bit word, as Go adds it up. A map is an association list
-- with each key once. fmt.Sscanf with "%d" is read as its documentation has it: white space, a
-- sign and digits.
--
-- Pieces: the types of internal/types/types.go, and the geometry of pieces, bitfields, the data
-- file and the resume state of internal/downloader/downloader.go, with buildBitfield of
-- internal/peer/listener.go. SHA-1 is a parameter of which nothing is assumed. The data file is
-- the list of its bytes; errors of the operating system are left out, save reads past the end.
--
-- Transfer: downloadPieceFromSession of internal/downloader/downloader.go, one piece from one
-- peer. What the loop meets turn by turn (another worker has the piece, a failing send or read, a
-- message) is a list of events, which is what the run recurses on; a run whose events are used up
-- is `waiting`. The inner loop that sends requests has the number of blocks that may be in flight
-- as fuel: each turn adds one.
--
-- Choke: internal/choke/choke.go. The map of peers is the list of its values in the order in which
-- a range yields them; the peer's key and what sort.Slice answers are parameters. Byte counters
-- are taken not to overflow.
--
-- Pool: the peers that a download draws from (peerPool and the tuning of a session's window in
-- internal/downloader/downloader.go) and the classes of errors in internal/downloader/errors.go.
-- Times are nanoseconds, and the address and the port of a peer are judged by the package net.
--
-- Resume: internal/state/state.go.
--
-- Swarm: what internal/downloader/downloader.go makes of what others say: peer exchange, the list
-- of trackers, the parts of a path, the order of pieces (the comparison that sort.Slice is given),
-- and the completion bus. strings.TrimSpace is a parameter of which nothing is assumed.
-- Swarm.Manager: internal/peer/manager.go, without its goroutine.
--
-- Metadata: fetchMetadata of internal/protocol/metadata.go, the description of a torrent from one
-- peer, and decodeInfoDict. The two loops that skip messages have the 200 of the source as fuel;
-- bencodeLen has any fuel, and a fetch that exceeds it is `hangs`. A panic is an answer of its
-- own, which fetchMetadataWithRecovery makes an error of. Metadata.Honest says what a peer that
-- keeps to BEP 9 sends. Metadata.Race is the race over many peers
-- (FetchMetadataFromPeersWithProgress) as a step relation until the function returns; what a peer
-- comes to is a parameter of it, a description, an error, or a fetch that runs for ever
-- (with_recovery takes it from `hangs`).
--
-- Download: DownloadTorrentWithOptions of internal/downloader/downloader.go from the prepared file
-- to the last piece: its workers, connectors, endgame and wait as a step relation on what they
-- share, in which each step is what one goroutine does between two operations on shared state, and
-- all interleavings are runs. A transfer is a step with the events that it met, judged by
-- Transfer; the session log, the progress output and the saving of the resume state are left out,
-- and a write to the data file is done whole or fails. Download.Refines has the abstract download,
-- Download.Kept where a piece is, Download.Stuck the state in which nothing moves, and
-- Download.Files the files that are cut out of the data file at the end (materializeMultiFile): a
-- name on disk is a file or a directory, a file that is there is overwritten, and a directory is
-- known by the files below it; links, empty directories and other failures of the operating system
-- are left out.
--
-- Tracker: the announce over UDP and the compact list of peers of internal/tracker/tracker.go. The
-- random transaction IDs are arguments, and an answer that does not come is none.
--
-- Parser: OpenTorrentFile, ParseMagnetLink and the readers of an info hash in
-- internal/types/parser.go. What the libraries for bencode, hex, base32, URLs and SHA-1 answer are
-- parameters of which nothing is assumed.
--
-- Listener: a connection of the inbound listener of internal/peer/listener.go, from the handshake
-- to its end, against an interface of what a provider of pieces promises, which the seed store of
-- internal/downloader/downloader.go fills. What ShouldUnchoke answers turn by turn is handed in,
-- and every write succeeds; a loop that would go on waits for the next message. Accepting
-- connections and deadlines are left out.
--
-- Client: what cmd/torrent-client/main.go does to find peers: its lists of trackers, the rounds of
-- announces, the lookups in the DHT, dropping duplicates, and the reading of an address.
-- strings.TrimSpace, the text of an address and what trackers and the DHT answer are parameters.
--
-- Dht: internal/dht/dht.go. A lookup is a step relation on what the goroutines of a round share:
-- each step is what one goroutine does while it holds the lock, and nodes may answer anything.
-- sort.Sort, net.JoinHostPort, the bencode package and the random IDs are parameters; the deadline
-- is left out, as a lookup may stop after any step. Dht.Query is one query with what is made of
-- its answer, and Dht.Insertion a sort that keeps what sort.Sort promises.
--
-- Setup: newPeerSession of internal/downloader/downloader.go, from the handshake to the message
-- that unchokes. The 40 messages of the source are the fuel of its loop.
--
-- Not modelled: internal/upnp, internal/natpmp and internal/portmap (router protocols, input and
-- output), the flags, the console and the wiring in cmd/torrent-client, internal/tracker over HTTP
-- (net/http and the bencode library), the JSON of internal/state, and of
-- DownloadTorrentWithOptions the discovery of peers, the progress output and the session log.
pub mod Base
pub mod Wire
pub mod Bencode
pub mod Pieces
pub mod Choke
pub mod Transfer
pub mod Pool
pub mod Resume
pub mod Swarm
pub mod Tracker
pub mod Parser
pub mod Metadata
pub mod Download
pub mod Setup
pub mod Listener
pub mod Client
pub mod Dht
