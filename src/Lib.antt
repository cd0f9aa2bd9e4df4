-- ===== src/Lib.antt =====
-- The core of furrent, a BitTorrent client in C++ (src/ of the repository), and what holds of it.
--
-- A .torrent file is parsed into a descriptor (src/torrent.cpp), which says how the torrent's pieces
-- lie over its files; each piece is a task that a worker downloads from a peer, in messages of the
-- peer protocol (src/download), and writes to the files.
--
-- Prelude: tests, lists, bits and integers over the native numbers, and how a call ends. A function
--   that may throw or have undefined behaviour returns an `Exec`; one that returns the program's
--   util::Result (src/util/result.hpp) returns a `Result`.
-- Download/Util: src/download/util.cpp, encode_integer and decode_integer.
-- Download/Bitfield: src/download/bitfield.hpp and bitfield.cpp. Bitfield::set is `set_to`, its
--   constructors are `zeroed` and `over_storage`. Bitfield/Bytes has the laws of one byte,
--   Bitfield/Writes those of the whole.
-- Download/Message: src/download/message.hpp and message.cpp; Message::encode is `encode`, and
--   Message::decode is `decode`. Message/RoundTrip goes from messages to bytes, Message/Decoding
--   back.
-- Download/Socket: src/download/socket.cpp, a Socket over the calls of asio; Socket/Reads is about what
--   a read returns.
-- Download/Downloader: src/download/downloader.cpp. Calls has the methods of an object as functions;
--   the parent has the connection up to ensure_connected, Blocks the arithmetic of try_download
--   and Transfer its loops. Downloader/Asio puts it over Socket. Calls/Post and Calls/Finish are
--   what holds when a method ends, and that it does; Connection, Health, Transfer/Steps and
--   Transfer/Safety follow the object through the calls, Announced and
--   Transfer/Announcing its bitfield, Transfer/Requests the requests, Ended, Supply and Transfer/Termination the
--   bytes that a peer still sends, and Contract has the results. Blocks/Tiling and Blocks/Assembly
--   are about the blocks of a piece. Delivery, Handshake, Transfer/Messages, Transfer/Service, Transfer/Completion and
--   Transfer/Scratch are about a peer whose bytes arrive. Script is such a peer.
-- Torrent: src/torrent.cpp, File::filename and Torrent::pieces. Torrent/Cover says what a layout is
--   to be, Torrent/Fill is about the inner loop, Torrent/Rounds about a round of the outer
--   one and Torrent/Layout about the whole.
-- Bencode: src/bencode. Value has BencodeValue and its to_string, Parser is BencodeParser: `parse`
--   is decode(std::string const&), and `decode`, `decode_items` and `decode_entries` are the private
--   decode() and the loops of decode_list and decode_dict. RoundTrip reads a printed value back,
--   on the lemmas of Number, Cursor, Order and Steps; Termination, on those of Outcome, is about
--   any text, and Overread about texts that are read behind their end.
-- Torrent/Reading: src/torrent.cpp, the constructor of TorrentFile, over Hash: src/hash.cpp.
--   Torrent/Metainfo reads the tree of a torrent.
-- Policy: src/policy, the queue and its policies; Policy/Order says in which order items come out.
-- Mt: src/mt/sharing_queue.hpp and sharing_queue.inl. A thread's critical section is a step, and a
--   notify_all behind it another. Mt/Wakeup is about the threads that wait for work,
--   and Mt/Emptied about those that wait for the queue to be empty. Mt/Group is
--   src/mt/group.inl, the group of the worker threads.
-- Furrent: src/furrent.cpp, the torrents, their queued tasks and the workers: a step for what is done
--   under each lock by add_torrent, remove_torrent and thread_main. Furrent/Account counts the
--   pieces of a torrent, Furrent/Moves, Furrent/Stops and Furrent/Completion follow the count. Furrent/Saving is
--   PieceTask::save, over a function that writes bytes to files, Furrent/Process is
--   PieceTask::process, over the Downloader, Furrent/Prepare is prepare_torrent_files and
--   set_download_folder, and Furrent/Load what add_torrent does in front of the announcement.
-- Platform: src/platform/io.cpp over the calls of the file system.
-- Peer: src/peer.cpp, the answer of a tracker, read on Bencode. Peer/Response says which peers are
--   taken from it.
-- The modules named Examples hold runs and instances of the theorems.
--
-- Bytes and characters are numbers below 256, and an int64_t is a `ℤ`, or a number where the code
-- has tested its sign. The inner loop of Torrent::pieces has a round for each file as fuel, and each
-- round but the last moves on by a file. The parser of bencoded text has fuel for two calls a
-- character and four more: a call of decode moves the index on, and a loop makes one before its next
-- round. The loop of split_piece_hashes moves on by 20 characters with the text's length as fuel, and
-- those of Queue::mutate and parse_tracker_response have a round for each item or byte and one more.
--
-- The two loops of a Downloader that wait for a message have fuel, of which a message takes one and at
-- least four bytes of what the peer sends.
--
-- SHA-1 is third-party code, a function that the definitions take. The lengths in the descriptor of
-- Torrent are taken as not negative; Torrent/Reading has them as int64_t.
--
-- Asio, under the socket, is a record of functions over a state of its own, and so is the socket under
-- the Downloader.
--
-- The standard file system is a record of functions, and a thread of a group its index.
--
-- What a worker does to a torrent whose piece is saved is one step, though two workers may be at it.
--
-- Not modelled: what std::thread does, the constructor of a Peer from a string, the user interface and
-- the log.
pub mod Prelude
pub mod Download
pub mod Bencode
pub mod Hash
pub mod Policy
pub mod Furrent
pub mod Peer
pub mod Platform
pub mod Mt
pub mod Torrent
