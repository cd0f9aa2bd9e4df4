-- ===== src/Download/Downloader/Transfer.antt =====
-- src/download/downloader.cpp, Downloader::try_download: the requests, of which at most five are under
-- way, and the messages of the peer. The memory for a piece is not bounded. SHA-1 is the parameter
-- `calc`.
pub mod Steps
pub mod Requests
pub mod Announcing
pub mod Safety
pub mod Termination
pub mod Messages
pub mod Service
pub mod Completion
pub mod Scratch
use furrent.Prelude.{
  ℕ, zero, suc, ◌+◌, ◌-◌, List, Bool, true, false, ◌&&◌, ◌||◌, if◌then◌else◌, ltb, replicate,
  Option, none, some, Result, ok, error, Exec, returns, throws, undefined, out_of_fuel,
  invalid_argument,
}
use furrent.Prelude.Int.{ℤ, pos, negsuc, ltb_ℤ, leb_ℤ}
use furrent.Peer.{Peer}
use furrent.Hash.{verify_piece}
use furrent.Torrent.Reading.{TorrentFile}
use furrent.Download.Bitfield.{Bitfield, get, set_bit}
use furrent.Download.Message.{Message, choke, unchoke, have, request, piece}
use furrent.Download.Socket.{Empty, empty}
use furrent.Download.Downloader.{
  Sockets, Downloader, seconds, send_message, recv_message, ensure_connected,
}
use furrent.Download.Downloader.Calls.{
  DownloaderError, missing_piece, corrupt_piece, Method, proceed, ◌>>=◌, done, refuse, modify, lift,
}
use furrent.Download.Downloader.Blocks.{
  pipeline_size_max, unchoke_timeout, blocks_total, block_offset, block_length, copy_block,
  piece_length_at, hash_at,
}

pub record Downloaded : Type 0 where
  pub index : ℤ
  pub content : List ℕ

-- The variables of the loop.
pub record Transfer : Type 0 where
  pub content : List ℕ
  pub requested : ℕ
  pub received : ℕ
  pub timeout : ℤ

-- The variables in front of the loop.
unfoldable pub start : ℕ → Transfer
start piece_length = record {
  content = replicate piece_length 0;
  requested = 0;
  received = 0;
  timeout = seconds 5;
}

-- `*bitfield`, which the call reads or changes.
unfoldable pub held : Option Bitfield → Exec Bitfield
held none = undefined
held (some bf) = returns bf

module _ {W : Type 0} (net : Sockets W) (torrent : TorrentFile) where
  -- The inner loop, with the blocks that are left to request; the first of them is
  -- `blocks_requested`, which it returns.
  unfoldable pub request_blocks : ℕ → ℕ → ℤ → ℕ → ℕ → Method (Downloader W) ℕ
  request_blocks zero piece_length index requested received = done requested
  request_blocks (suc left) piece_length index requested received =
      if ltb requested (received + pipeline_size_max)
      then (send_message net
            (request index (pos (block_offset requested))
              (pos (block_length piece_length requested)))
            (seconds 5)
          >>= λ _. request_blocks left piece_length index (requested + 1) received)
      else done requested

  -- The part of a round in front of recv_message.
  unfoldable pub request_unchoked : ℕ → ℤ → Transfer → Method (Downloader W) Transfer
  request_unchoked piece_length index x s =
      if s.choked
      then (returns (ok x), s)
      else (request_blocks (blocks_total piece_length - x.requested) piece_length index x.requested
              x.received
            >>= λ requested. done (record x { requested = requested }))
          s

  -- bitfield->set(new_piece_index)
  unfoldable pub note_piece : ℤ → Method (Downloader W) Empty
  note_piece index s =
      (lift (held s.bitfield) >>= λ bf. lift (set_bit bf index) >>= λ new.
      modify (λ (t : Downloader W). record t { bitfield = some new }))
        s

  -- The switch on the kind of the message.
  unfoldable pub on_message : Message → Transfer → Method (Downloader W) Transfer
  on_message choke x = modify (λ s. record s { choked = true }) >>= λ _.
      done (record x { timeout = seconds unchoke_timeout })
  on_message unchoke x =
      modify (λ s. record s { choked = false }) >>= λ _. done (record x { timeout = seconds 5 })
  on_message (have index) x = note_piece index >>= λ _. done x
  on_message (piece index begin block) x = lift (copy_block x.content begin block) >>= λ content.
      done (record x { content = content; received = x.received + 1 })
  on_message _ x = done x

  -- The outer loop: a message of the peer a round.
  unfoldable pub download_blocks : ℕ → ℕ → ℤ → Transfer → Method (Downloader W) Transfer
  download_blocks zero piece_length index x = λ s. (out_of_fuel, s)
  download_blocks (suc fuel) piece_length index x =
      if ltb x.received (blocks_total piece_length)
      then (request_unchoked piece_length index x >>= λ y.
          recv_message net torrent y.timeout >>= λ message.
          on_message message y >>= λ z. download_blocks fuel piece_length index z)
      else done x

  module _ (calc : List ℕ → List ℕ) (fuel : ℕ) where
    -- What is behind the loop.
    unfoldable pub verified : ℤ → List ℕ → Method (Downloader W) Downloaded
    verified index content = do
      hash ← lift (hash_at torrent.piece_hashes index)
      same ← lift (verify_piece calc content hash)
      if same then done (record { index = index; content = content }) else refuse corrupt_piece

    -- From the piece's length on.
    unfoldable pub download_piece : ℤ → ℤ → Method (Downloader W) Downloaded
    download_piece index (negsuc n) = lift (throws invalid_argument)
    download_piece index (pos zero) = lift (throws invalid_argument)
    download_piece index (pos (suc n)) =
        download_blocks fuel (suc n) index (start (suc n)) >>= λ x. verified index x.content

    -- bitfield->get(task.index)
    unfoldable pub offers : ℤ → Method (Downloader W) Bool
    offers index s = (lift (held s.bitfield) >>= λ bf. lift (get bf index)) s

    unfoldable pub download_from : Peer → ℤ → Method (Downloader W) Downloaded
    download_from peer index = do
      connected ← ensure_connected net fuel torrent peer
      has_piece ← offers index
      (if has_piece
          then (lift (piece_length_at torrent index) >>= λ piece_length.
              download_piece index piece_length)
          else refuse missing_piece)

    unfoldable pub try_download : Peer → ℤ → Method (Downloader W) Downloaded
    try_download peer index =
        if leb_ℤ torrent.pieces_count (pos 0)
        then lift (throws invalid_argument)
        else if ltb_ℤ index (pos 0) || leb_ℤ torrent.pieces_count index
        then lift (throws invalid_argument)
        else download_from peer index
