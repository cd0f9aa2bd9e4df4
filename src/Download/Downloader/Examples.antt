-- ===== src/Download/Downloader/Examples.antt =====
-- src/download/downloader.cpp at work, with the socket of Script.
use furrent.Prelude.{
  ℕ, ◌+◌, ◌≤◌, ◌<◌, ◌≡◌, ◌≢◌, ◌⊎◌, inl, inr, refl, List, [], ◌∷◌, ◌++◌, Bool, true, false, length,
  replicate, none, some, ok, error, returns, out_of_fuel, arith,
}
use furrent.Prelude.Int.{pos}
use furrent.Download.Util.{encode_integer}
use furrent.Download.Bitfield.{over_storage, get_bytes, get}
use furrent.Download.Message.{unchoke, bitfield, encode, encode_framed, encode_payload, message_id}
use furrent.Download.Socket.{empty}
use furrent.Download.Downloader.{new_downloader}
use furrent.Download.Downloader.{
  Downloader, handshake, handshake_message, recv_message, send_message, attempt, seconds,
}
use furrent.Download.Downloader.Calls.{different_info_hash}
use furrent.Download.Downloader.Announced.{HoldsAnnounced}
use furrent.Download.Downloader.Health.{IsHealthy}
use furrent.Download.Downloader.Delivery.{holding, recv_message-encode}
use furrent.Download.Downloader.Handshake.{handshake_meets}
use furrent.Download.Downloader.Blocks.{blocks_total, block_offset, block_length}
use furrent.Download.Downloader.Blocks.Tiling.{blocks-partition}
use furrent.Download.Downloader.Transfer.{Transfer, request_blocks, request_unchoked, try_download}
use furrent.Download.Downloader.Transfer.Requests.{
  FillsPipeline, AreRequested, request_unchoked-FillsPipeline,
}
use furrent.Download.Downloader.Transfer.Safety.{IsPiece}
use furrent.Download.Downloader.Transfer.Completion.{try_download-delivered}
use furrent.Download.Downloader.Contract.{
  try_download-IsPiece, try_download-ends, try_download-IsHealthy,
}
use furrent.Download.Downloader.Script.{
  script, script_reads, script_finite, Arrives, script_delivers, torrent, calc, peer, content,
  answer, answer_bytes, all_pieces, zero_index, hash, piece_of, answer_of, spelled, connected,
  piece_zero, fuel, has_zero,
}
use furrent.Download.Downloader.Transfer.Scratch.{try_download-new, copied, opening, unchoke_frame}
use furrent.Download.Message.RoundTrip.{IsSendable}

is_open : script.is_open answer_bytes ≡ true
unfolding script
is_open = refl

downloads :
    (choked : Bool) × (w : List ℕ) × (try_download script torrent calc fuel peer
        (pos zero_index)
        connected
      ≡ (
        returns (ok piece_zero),
        holding script Arrives script_delivers choked (some all_pieces) w,
      ))
downloads =
    try_download-delivered script Arrives script_delivers torrent calc zero_index content hash fuel
      peer answer answer_bytes true all_pieces answer_bytes piece_of answer_of (omega arith) spelled
      refl is_open has_zero

try_download-delivered_example :
    (choked : Bool) × (w : List ℕ) × (try_download script torrent calc fuel peer
        (pos zero_index)
        connected
      ≡ (
        returns (ok piece_zero),
        holding script Arrives script_delivers choked (some all_pieces) w,
      ))
try_download-delivered_example =
    try_download-delivered script Arrives script_delivers torrent calc zero_index content hash fuel
      peer answer answer_bytes true all_pieces answer_bytes piece_of answer_of (omega arith) spelled
      refl is_open has_zero

connected-IsHealthy : IsHealthy connected
connected-IsHealthy = inr (refl, (all_pieces, refl))

try_download-IsPiece_example : IsPiece torrent calc (pos 0) piece_zero
try_download-IsPiece_example =
    try_download-IsPiece script torrent calc fuel peer (pos 0) connected script_reads
      connected-IsHealthy piece_zero
      (holding script Arrives script_delivers downloads.0 (some all_pieces) downloads.1) downloads.2

-- A new Downloader, to which a peer that has the piece sends its handshake and its messages.
abbrev first_bytes : List ℕ
first_bytes = 0 ∷ 0 ∷ 0 ∷ 2 ∷ 5 ∷ 128 ∷ 0 ∷ 0 ∷ 0 ∷ 1 ∷ 1 ∷ answer_bytes

pub greeting : List ℕ
unfolding handshake_message
greeting = handshake_message (replicate 20 1) ++ first_bytes

abbrev fresh : Downloader (List ℕ)
fresh = record { world = greeting; socket = false; choked = true; bitfield = none }

enough : length greeting < 150
unfolding greeting
enough = omega arith

abbrev more_fuel : ℕ
more_fuel = 150

try_download-ends_example :
    (try_download script torrent calc more_fuel peer (pos 0) fresh).0 ≢ out_of_fuel
try_download-ends_example =
    try_download-ends script torrent calc more_fuel peer (pos 0) fresh length script_finite enough

try_download-IsHealthy_example :
    IsHealthy (try_download script torrent calc more_fuel peer (pos 0) fresh).1
    × HoldsAnnounced script torrent
        (try_download script torrent calc more_fuel peer (pos 0) fresh).1
try_download-IsHealthy_example =
    try_download-IsHealthy script torrent calc more_fuel peer (pos 0) fresh length script_reads
      script_finite enough (inl refl) tt

blocks-partition_example :
    ((k : ℕ)
      → k < blocks_total 20000
      → (0 < block_length 20000 k)
        × (block_length 20000 k ≤ 16384)
        × (block_offset k + block_length 20000 k ≤ 20000))
    × ((j : ℕ)
        → j < 20000
        → (k : ℕ) × (k < blocks_total 20000)
          × (block_offset k ≤ j)
          × (j < block_offset k + block_length 20000 k)
          × ((i : ℕ)
              → i < blocks_total 20000
              → block_offset i ≤ j
              → j < block_offset i + block_length 20000 i
              → i ≡ k))
blocks-partition_example = blocks-partition 20000

abbrev own_hash : List ℕ
own_hash = replicate 20 1

handshake_meets_example :
    ((own_hash ≡ own_hash)
      × ((v : List ℕ) × (handshake script torrent (
              holding script Arrives script_delivers true none
                (handshake_message own_hash ++ first_bytes))
            ≡ (returns (ok empty), holding script Arrives script_delivers true none v))
          × (v ≡ first_bytes)))
    ⊎ ((own_hash ≢ own_hash)
        × ((s : Downloader (List ℕ)) × (handshake script torrent (
                holding script Arrives script_delivers true none
                  (handshake_message own_hash ++ first_bytes))
              ≡ (returns (error different_info_hash), s))
            × (s.socket ≡ false)))
handshake_meets_example =
    handshake_meets script Arrives script_delivers torrent true none own_hash first_bytes
      (handshake_message own_hash ++ first_bytes) refl refl

unchoke_bytes : encode unchoke ≡ returns (0 ∷ 0 ∷ 0 ∷ 1 ∷ 1 ∷ [])
unfolding encode encode_framed encode_payload encode_integer message_id
unchoke_bytes = refl

-- A piece of two blocks is requested at once.
-- Two blocks of a piece of 20000 bytes.
abbrev unchoked : Downloader (List ℕ)
unchoked = record connected { choked = false }

abbrev asked : Transfer
asked = record { content = []; requested = 2; received = 0; timeout = seconds 5 }

two_requests :
    request_unchoked script torrent 20000 (pos 0) (record asked { requested = 0 }) unchoked
    ≡ (returns (ok asked), unchoked)
unfolding request_unchoked request_blocks send_message attempt encode encode_framed encode_payload
    encode_integer message_id script block_offset block_length blocks_total
two_requests = refl

request_unchoked-FillsPipeline_example :
    ((unchoked.choked ≡ true) × (asked ≡ record asked { requested = 0 }) × (unchoked ≡ unchoked))
    ⊎ ((unchoked.choked ≡ false)
        × (asked ≡ asked)
        × AreRequested script 20000 (pos 0) 0 2 unchoked unchoked
        × FillsPipeline (blocks_total 20000) 0 0 2)
request_unchoked-FillsPipeline_example =
    request_unchoked-FillsPipeline script torrent 20000 (pos 0) (record asked { requested = 0 })
      asked unchoked unchoked (omega arith) two_requests

recv_message-encode_example :
    (v : List ℕ) × (recv_message script torrent
        (seconds 5)
        (holding script Arrives script_delivers true none (0 ∷ 0 ∷ 0 ∷ 1 ∷ 1 ∷ answer_bytes))
      ≡ (returns (ok unchoke), holding script Arrives script_delivers true none v))
    × (v ≡ answer_bytes)
recv_message-encode_example =
    recv_message-encode script Arrives script_delivers true none torrent unchoke
      (0 ∷ 0 ∷ 0 ∷ 1 ∷ 1 ∷ []) answer_bytes (seconds 5) (0 ∷ 0 ∷ 0 ∷ 1 ∷ 1 ∷ answer_bytes) tt
      unchoke_bytes refl

bitfield_bytes : encode (bitfield all_pieces) ≡ returns (0 ∷ 0 ∷ 0 ∷ 2 ∷ 5 ∷ 128 ∷ [])
unfolding encode encode_framed encode_payload encode_integer message_id over_storage get_bytes
bitfield_bytes = refl

reached : script.connect 0 0 (seconds 5) (script.create greeting) ≡ (ok empty, greeting)
unfolding script
reached = refl

greeted :
    Arrives
      (opening script Arrives script_delivers torrent
        (0 ∷ 0 ∷ 0 ∷ 2 ∷ 5 ∷ 128 ∷ [])
        unchoke_frame
        answer_bytes)
      greeting
unfolding greeting
greeted = refl

has_copied : get (copied script Arrives script_delivers torrent all_pieces) (pos 0) ≡ returns true
unfolding get over_storage get_bytes
has_copied = refl

fits_wire : IsSendable (pos 1) (bitfield all_pieces)
unfolding over_storage
fits_wire = (refl, omega arith)

abbrev spare : ℕ
spare = 5

abbrev pub enough_fuel : ℕ
enough_fuel = 7

pub from_scratch :
    (s : Downloader (List ℕ)) × (try_download script torrent calc enough_fuel peer
        (pos zero_index)
        (new_downloader greeting)
      ≡ (returns (ok piece_zero), s))
from_scratch =
    try_download-new script Arrives script_delivers torrent calc zero_index content hash spare peer
      all_pieces (0 ∷ 0 ∷ 0 ∷ 2 ∷ 5 ∷ 128 ∷ []) answer answer_bytes greeting greeting piece_of
      answer_of refl fits_wire bitfield_bytes has_copied (omega arith) spelled reached greeted

try_download-new_example :
    (s : Downloader (List ℕ)) × (try_download script torrent calc enough_fuel peer
        (pos zero_index)
        (new_downloader greeting)
      ≡ (returns (ok piece_zero), s))
try_download-new_example =
    try_download-new script Arrives script_delivers torrent calc zero_index content hash spare peer
      all_pieces (0 ∷ 0 ∷ 0 ∷ 2 ∷ 5 ∷ 128 ∷ []) answer answer_bytes greeting greeting piece_of
      answer_of refl fits_wire bitfield_bytes has_copied (omega arith) spelled reached greeted
