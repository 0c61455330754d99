-- ===== src/Lib.antt =====
-- Verification of stor, a BitTorrent client and daemon written in Go.
--
-- The program's packages, from the wire inwards: bencode (the data format), peer (the peer
-- wire protocol), utp (a reliable transport over UDP), dht (the distributed hash table),
-- magnet and tracker (finding peers and metadata), storage (files on disk), torrent
-- (metainfo), download (pieces and peers of one torrent), engine (sessions), events (the bus)
-- and daemon (the RPC server). The engine runs a session for each torrent; a session
-- downloads through download, which speaks peer over TCP or utp, writes through storage, and
-- tells the engine by events. This library models the packages' own logic; the sockets,
-- goroutines, files and timers around it are input and output.
--
-- Files:
-- - Prelude and its children: Boolean tests, lists over native numbers, integers, big-endian
--   words.
-- - Bencode: bencode/decode.go is Bencode/Decode.antt (decodeValue, decodeList and decodeDict
--   are the mutual functions decode_value, decode_list and decode_dict), bencode/encode.go is
--   Bencode/Encode.antt, the text of numbers is Bencode/Decimal.antt. The children of Decode
--   prove what is decoded, those of RoundTrip that what is encoded is decoded, in whatever order
--   Go ranges over a map (Rearranged).
-- - Peer: peer/message.go is Peer/Message.antt and Peer/Bitfield.antt, peer/handshake.go is
--   Peer/Handshake.antt, peer/extension.go and the reading loop of peer/extconn.go are
--   Peer/Extension.antt; the bencoded handshake of peer/extension.go is Peer/ExtHandshake.antt,
--   NegotiateExtension of peer/extconn.go is Peer/Negotiate.antt, and peer/pex.go is
--   Peer/Pex.antt.
-- - Utp: utp/packet.go is Utp/Packet.antt; of utp/conn.go, the wrapping order is Utp/Seq.antt
--   and deliverInOrder is Utp/Receive.antt.
-- - Download: download/piecequeue.go is Download/PieceQueue/Queue.antt (record, constructor and
--   methods), Pick.antt (Pick) and Buckets.antt (the availability buckets); Consistent, Steps
--   and Runs hold the invariant and its runs, Sample, Ascending and Picked what Pick chooses.
-- - Download/Client.antt is Client of download/download.go, Download/Piece.antt DownloadPiece
--   (Sound: what it returns is verified; Requests and Opening: what it asks for; Frames and
--   Honest: a peer that sends the blocks is enough), Download/Upload.antt is download/upload.go
--   (Replies and Served: what the serve loop writes; Initial: the first message), and
--   Download/PeerManager.antt is download/peermgr.go (Rechoked: who is choked after a round).
-- - Dht: dht/id.go is Dht/Id.antt and, for the compact forms, Dht/Compact.antt; dht/table.go is
--   Dht/Table.antt; Valid and Updates are about Update, Closest about Closest; dht/krpc.go is
--   Dht/Krpc.antt and dht/node.go without its lookups Dht/Node.antt, whose child Tokens is about
--   the tokens.
-- - Magnet: magnet/metadata.go is Magnet/Metadata.antt; Checked and Fetched are about
--   FetchMetadata.
-- - Torrent: torrent/torrent.go is Torrent/File.antt (the types and TrackerURLs) and
--   Torrent/Parse.antt.
-- - Storage: storage/multifile.go is Storage/MultiFile.antt over the paths of Storage/Path.antt
--   and the files of Storage/Disk.antt; its children show that the methods refine one stream of
--   bytes. VerifyPieces of storage/verify.go is Storage/Verify.antt.
-- - Engine: ComputeSkippedPieceMask of engine/skip_mask.go is Engine/SkipMask.antt, the
--   collecting of its arguments with TotalSize of storage/torrent.go is Engine/SkipRecord.antt,
--   engine/file_progress.go is Engine/FileProgress.antt, engine/stall_detector.go is
--   Engine/StallDetector.antt.
--
-- Conventions: a []byte is a list of numbers, below 256 where a theorem needs it; a reader is
-- the list of the bytes to come; a method returns the new state. A map is an association
-- list, whose order stands for Go's iteration order, or a function where it is only looked
-- up. Fixed-width integers are natural numbers with the wrap-around written out.
--
-- Fuel: the decoder takes two units for each byte of its input and one more, since each call
-- consumes a byte or hands the rest to a call of another function once; the loop of
-- ReadExtMessage takes one for each byte, since a frame has four at least; the loops of
-- DownloadPiece and of the Uploader take one for each byte in the same way; the flush of the
-- reorder buffer takes one for each entry, since a round deletes one. Theorems show that
-- these are never used up, that of the flush as part of the invariant.
--
-- Not modelled: formatted error texts, logging, locks (each method is one atomic step), and
-- what the manifest of the components lists.
pub mod Bencode
pub mod Dht
pub mod Download
pub mod Engine
pub mod Magnet
pub mod Peer
pub mod Prelude
pub mod Storage
pub mod Torrent
pub mod Utp
