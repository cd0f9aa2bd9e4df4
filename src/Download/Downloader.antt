-- ===== src/Download/Downloader.antt =====
-- src/download/downloader.hpp and downloader.cpp: the connection to one peer. The socket's calls are the
-- parameter `net`, over a state W of the socket and of what it is connected to; Socket.antt's
-- functions fill it (Downloader/Examples.antt). A time is a number of nanoseconds. `socket->` without
-- a socket is undefined.
pub mod Announced
pub mod Calls
pub mod Connection
pub mod Health
pub mod Blocks
pub mod Transfer
pub mod Ended
pub mod Supply
pub mod Contract
pub mod Delivery
pub mod Handshake
pub mod Asio
pub mod Script
pub mod Examples
use furrent.Prelude.{
  ℕ, zero, suc, ◌+◌, ◌*◌, ◌^◌, List, [], ◌∷◌, ◌++◌, Bool, true, false, ◌&&◌, if◌then◌else◌, ltb,
  length, take, drop, replicate, Option, none, some, Result, ok, error, Exec, returns, throws,
  undefined, out_of_fuel,
}
use furrent.Prelude.Int.{ℤ, pos, pos_part, neg_part, difference}
use furrent.Peer.{Peer}
use furrent.Hash.{hash_eq}
use furrent.Torrent.Reading.{TorrentFile}
use furrent.Download.Util.{decode_integer}
use furrent.Download.Bitfield.{Bitfield, over_storage, get_bytes}
use furrent.Download.Message.{Message, DecodeError, unchoke, interested, bitfield, encode, decode}
use furrent.Download.Socket.{SocketError, Empty, empty}
use Calls.{
  DownloaderError, different_info_hash, invalid_message, no_bitfield, from_socket_error, Method,
  proceed, ◌>>=◌, done, refuse, modify, lift,
}

-- The calls of a Socket: `create` makes the new one of `socket.emplace()`, `now` is the clock's time.
pub record Sockets (W : Type 0) : Type 0 where
  pub create : W → W
  pub is_open : W → Bool
  pub connect : ℕ → ℕ → ℤ → W → Result Empty SocketError × W
  pub write : List ℕ → ℤ → W → Result Empty SocketError × W
  pub read : ℤ → ℤ → W → Exec (Result (List ℕ) SocketError) × W
  pub close : W → W
  pub now : W → ℕ

-- The object, less the torrent and the peer. `socket` tells whether the optional has a value.
pub record Downloader (W : Type 0) : Type 0 where
  pub world : W
  pub socket : Bool
  pub choked : Bool
  pub bitfield : Option Bitfield

-- Downloader(torrent, peer)
unfoldable pub new_downloader : {W : Type 0} → W → Downloader W
new_downloader w = record { world = w; socket = false; choked = true; bitfield = none }

abbrev pub seconds : ℕ → ℤ
seconds n = pos (n * 1000000000)

abbrev pub milliseconds : ℕ → ℤ
milliseconds n = pos (n * 1000000)

-- `limit -= until - since`
abbrev pub less_elapsed : ℤ → ℕ → ℕ → ℤ
less_elapsed limit since until = difference (pos_part limit + since) (neg_part limit + until)

abbrev pub handshake_length : ℕ
handshake_length = 1 + 19 + 8 + 20 + 20

abbrev pub info_hash_offset : ℕ
info_hash_offset = 1 + 19 + 8

abbrev pub protocol : List ℕ
protocol =
    b'B' ∷ b'i' ∷ b't' ∷ b'T' ∷ b'o' ∷ b'r' ∷ b'r' ∷ b'e' ∷ b'n' ∷ b't' ∷ b' ' ∷ b'p' ∷ b'r' ∷ b'o'
    ∷ b't' ∷ b'o' ∷ b'c' ∷ b'o' ∷ b'l' ∷ []

abbrev pub peer_id : List ℕ
peer_id = b'F' ∷ b'U' ∷ b'R' ∷ replicate 17 b'-'

-- The message that handshake() builds.
unfoldable pub handshake_message : List ℕ → List ℕ
handshake_message info_hash = 19 ∷ protocol ++ (replicate 8 0 ++ (info_hash ++ peer_id))

-- The 20 bytes that std::copy takes out of the response, which reads behind the end of a shorter one.
unfoldable pub response_hash : List ℕ → Exec (List ℕ)
response_hash response =
    if ltb (length response) (info_hash_offset + 20)
    then undefined
    else returns (take 20 (drop info_hash_offset response))

-- The length prefix, by its four bytes.
unfoldable pub message_length : List ℕ → Exec ℤ
message_length (b₀ ∷ b₁ ∷ b₂ ∷ b₃ ∷ rest) = returns (decode_integer b₀ b₁ b₂ b₃)
message_length _ = undefined

module _ {W : Type 0} (net : Sockets W) where
  -- destroy_socket(), where there is a socket.
  abbrev pub closed : Downloader W → Downloader W
  closed s = record s { world = net.close s.world; socket = false }

  unfoldable pub destroy_socket : Method (Downloader W) Empty
  destroy_socket s = if s.socket then (returns (ok empty), closed s) else (undefined, s)

  -- A call of the socket, and what follows each: after an error the socket is destroyed, and the
  -- error passed on.
  abbrev pub attempted :
      {A : Type 0}
      → Exec (Result A SocketError) × W
      → Downloader W
      → Exec (Result A DownloaderError) × Downloader W
  attempted (returns (ok a), w) s = (returns (ok a), record s { world = w })
  attempted (returns (error e), w) s =
      (returns (error (from_socket_error e)), closed (record s { world = w }))
  attempted (throws x, w) s = (throws x, record s { world = w })
  attempted (undefined, w) s = (undefined, record s { world = w })
  attempted (out_of_fuel, w) s = (out_of_fuel, record s { world = w })

  unfoldable pub attempt :
      {A : Type 0} → (W → Exec (Result A SocketError) × W) → Method (Downloader W) A
  attempt call s = if s.socket then attempted (call s.world) s else (undefined, s)

  abbrev pub written : Result Empty SocketError × W → Exec (Result Empty SocketError) × W
  written (r, w) = (returns r, w)

  unfoldable pub clock : Method (Downloader W) ℕ
  clock s = (returns (ok (net.now s.world)), s)

  unfoldable pub send_message : Message → ℤ → Method (Downloader W) Empty
  send_message msg limit =
      lift (encode msg) >>= λ bytes. attempt (λ w. written (net.write bytes limit w))

  -- What recv_message makes of the decoded message.
  unfoldable pub valid_message : Result Message DecodeError → Method (Downloader W) Message
  valid_message (ok message) = done message
  valid_message (error e) = destroy_socket >>= λ _. refuse invalid_message

  unfoldable pub recv_message : TorrentFile → ℤ → Method (Downloader W) Message
  recv_message torrent limit = do
    before_read_len ← clock
    message_len_bytes ← attempt (net.read (pos 4) limit)
    message_len ← lift (message_length message_len_bytes)
    now ← clock
    rest ← attempt (net.read message_len (less_elapsed limit before_read_len now))
    valid_message (decode torrent.pieces_count (message_len_bytes ++ rest))

  -- The end of handshake(), with the hash of the response.
  unfoldable pub same_hash : List ℕ → List ℕ → Method (Downloader W) Empty
  same_hash info_hash response =
      if hash_eq info_hash response
      then done empty
      else (destroy_socket >>= λ _. refuse different_info_hash)

  unfoldable pub handshake : TorrentFile → Method (Downloader W) Empty
  handshake torrent = do
    sent ← attempt (λ w. written (net.write (handshake_message torrent.info_hash) (seconds 5) w))
    response ← attempt (net.read (pos handshake_length) (seconds 5))
    response_info_hash ← lift (response_hash response)
    same_hash torrent.info_hash response_info_hash

  -- The first message, which has to be a bitfield.
  unfoldable pub keep_bitfield : Message → Method (Downloader W) Empty
  keep_bitfield (bitfield bf) =
      modify (λ s. record s { bitfield = some (over_storage (get_bytes bf) bf.len) })
  keep_bitfield _ = destroy_socket >>= λ _. refuse no_bitfield

  unfoldable pub note_unchoke : Message → Method (Downloader W) Empty
  note_unchoke unchoke = modify (λ s. record s { choked = false })
  note_unchoke _ = done empty

  -- The loop `while (choked)`, which ends when the peer unchokes or its time is over.
  unfoldable pub wait_unchoke : ℕ → TorrentFile → Method (Downloader W) Empty
  wait_unchoke zero torrent s = (out_of_fuel, s)
  wait_unchoke (suc fuel) torrent s =
      if s.choked
      then (recv_message torrent (milliseconds 50) >>= note_unchoke >>= λ _.
            wait_unchoke fuel torrent)
          s
      else (returns (ok empty), s)

  unfoldable pub reset : Downloader W → Downloader W
  reset s = record s { world = net.create s.world; socket = true; choked = true }

  unfoldable pub connect_anew : ℕ → TorrentFile → Peer → Method (Downloader W) Empty
  connect_anew fuel torrent peer = do
    fresh ← modify reset
    connected ← attempt (λ w. written (net.connect peer.ip peer.port (seconds 5) w))
    shaken ← handshake torrent
    message ← recv_message torrent (seconds 5)
    kept ← keep_bitfield message
    unchoked ← send_message unchoke (seconds 5)
    interest ← send_message interested (seconds 5)
    choke ← modify (λ s. record s { choked = true })
    wait_unchoke fuel torrent

  unfoldable pub ensure_connected : ℕ → TorrentFile → Peer → Method (Downloader W) Empty
  ensure_connected fuel torrent peer s =
      if s.socket && net.is_open s.world
      then (returns (ok empty), s)
      else connect_anew fuel torrent peer s
