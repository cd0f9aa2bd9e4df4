-- ===== src/Peer.antt =====
-- src/peer.hpp and peer.cpp: what a tracker answers. The request is made by a third-party library; its
-- status and its text are arguments.
pub mod Response
mod Examples
use furrent.Prelude.{
  ℕ, zero, suc, ◌+◌, ◌*◌, ◌/◌, ◌%◌, ◌^◌, ◌==◌, ltb, leb, ◌||◌, List, [], ◌∷◌, ◌++◌, Bool, true,
  false, if◌then◌else◌, length, drop, Result, ok, error, Exec, returns, undefined, out_of_fuel,
  ◌>>=◌,
}
use furrent.Prelude.Int.{ℤ}
use furrent.Bencode.Value.{BencodeValue, decimal}
use furrent.Bencode.Parser.{parse}
use furrent.Torrent.Reading.{as_dict, as_int, as_string, at}

pub record Peer : Type 0 where
  pub ip : ℕ
  pub port : ℕ

-- Peer::address: the four bytes of the address, highest first, and the port.
unfoldable pub address : Peer → List ℕ
address peer =
    decimal (peer.ip / 2 ^ 24 % 256)
    ++ b'.' ∷ decimal (peer.ip / 2 ^ 16 % 256)
    ++ b'.' ∷ decimal (peer.ip / 2 ^ 8 % 256)
    ++ b'.' ∷ decimal (peer.ip % 256)
    ++ b':' ∷ decimal peer.port

pub record Announce : Type 0 where
  pub interval : ℤ
  pub peers : List Peer

pub data PeerError : Type 0 where
  parser_error announce_error : PeerError

abbrev pub interval_key : List ℕ
interval_key = b'i' ∷ b'n' ∷ b't' ∷ b'e' ∷ b'r' ∷ b'v' ∷ b'a' ∷ b'l' ∷ []

abbrev pub peers_key : List ℕ
peers_key = b'p' ∷ b'e' ∷ b'e' ∷ b'r' ∷ b's' ∷ []

-- The six reads `*(it++)`: shifted bytes have no bit in common, so `|=` adds them. A read at the end
-- is undefined.
unfoldable pub peer_at : List ℕ → Exec Peer
peer_at (b₀ ∷ b₁ ∷ b₂ ∷ b₃ ∷ b₄ ∷ b₅ ∷ rest) =
    returns (record { ip = ((b₀ * 256 + b₁) * 256 + b₂) * 256 + b₃; port = b₄ * 256 + b₅ })
peer_at _ = undefined

-- The loop, which moves the iterator on by six in its body and by six behind it. To move it beyond the
-- end is undefined.
unfoldable pub peers_from : ℕ → List ℕ → ℕ → Exec (List Peer)
peers_from zero bytes it = out_of_fuel
peers_from (suc fuel) bytes it =
    let rest = peers_from fuel bytes (it + 6 + 6) in
    if ltb it (length bytes)
    then (peer_at (drop it bytes) >>= λ peer. elim (leb (it + 6 + 6) (length bytes)) [
      | true ↦ rest >>= λ peers. returns (peer ∷ peers)
      | false ↦ undefined
    ])
    else returns []

unfoldable pub response_of : BencodeValue → Exec (Result Announce PeerError)
response_of tree = do
  fields ← as_dict tree
  interval_node ← at interval_key fields
  interval ← as_int interval_node
  peers_node ← at peers_key fields
  bytes ← as_string peers_node
  peers ← peers_from (length bytes + 1) bytes 0
  returns (ok (record { interval = interval; peers = peers }))

unfoldable pub parse_tracker_response : List ℕ → Exec (Result Announce PeerError)
parse_tracker_response text = parse text >>= λ tree. elim tree [
  | error e ↦ returns (error parser_error)
  | ok value ↦ response_of value
]

unfoldable pub announce : ℕ → List ℕ → Exec (Result Announce PeerError)
announce status_code text =
    if status_code == 0 || leb 400 status_code
    then returns (error announce_error)
    else parse_tracker_response text
