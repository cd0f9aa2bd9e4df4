-- ===== src/Peer/Response.antt =====
-- Which peers src/peer.cpp takes from the answer of a tracker.
use furrent.Prelude.{
  ℕ, zero, suc, ◌+◌, ◌*◌, ◌/◌, ◌%◌, ◌^◌, ◌<◌, ◌≤◌, ◌≡◌, ◌==◌, ltb, leb, ◌||◌, refl, sym, ap, ap₂,
  ◌∙◌, List, [], ◌∷◌, true, false, if◌then◌else◌, length, length-drop, drop, drop-drop, ok, error,
  Result, Exec, returns, undefined, ◌>>=◌, arith,
}
use furrent.Prelude.Int.{ℤ, IsInt64}
use furrent.Bencode.Value.{BencodeValue, integer, string, dict, entry, end, to_string}
use furrent.Bencode.Parser.{lex_lt}
use furrent.Bencode.Steps.{IsWellFormed}
use furrent.Bencode.RoundTrip.{parse-to_string}
use furrent.Torrent.Reading.{as_dict, as_int, as_string, at, find}
use furrent.Peer.{
  Peer, Announce, PeerError, announce_error, interval_key, peers_key, peer_at, peers_from,
  response_of, parse_tracker_response, announce,
}

-- Addresses in the compact form of the protocol.
abbrev pub compact : List Peer → List ℕ
compact [] = []
compact (peer ∷ peers) =
    peer.ip / 2 ^ 24
    ∷ peer.ip / 2 ^ 16 % 256
    ∷ peer.ip / 2 ^ 8 % 256
    ∷ peer.ip % 256
    ∷ peer.port / 256
    ∷ peer.port % 256
    ∷ compact peers

-- The first, the third and so on of an even number of peers; an odd number has no value.
abbrev pub every_second : List Peer → Exec (List Peer)
every_second [] = returns []
every_second (peer ∷ []) = undefined
every_second (peer ∷ skipped ∷ peers) = every_second peers >>= λ taken. returns (peer ∷ taken)

peer_at-compact :
    (peer : Peer) (peers : List Peer) → peer_at (compact (peer ∷ peers)) ≡ returns peer
unfolding peer_at
peer_at-compact peer peers =
    let address : ((peer.ip / 2 ^ 24 * 256 + peer.ip / 2 ^ 16 % 256) * 256 + peer.ip / 2 ^ 8 % 256)
            * 256
          + peer.ip % 256
        ≡ peer.ip =
      omega arith in
    let number : peer.port / 256 * 256 + peer.port % 256 ≡ peer.port = omega arith in
    ap₂ (λ (a b : ℕ). returns (record { ip = a; port = b })) address number

-- Moving on by two peers.
drop-two :
    (bytes : List ℕ) (it : ℕ) (rest : List ℕ)
    → drop it bytes ≡ rest
    → drop (it + 6 + 6) bytes ≡ drop 12 rest
drop-two bytes it rest e =
    ap (λ (k : ℕ). drop k bytes) (omega arith) ∙ sym (drop-drop it 12 bytes) ∙ ap (drop 12) e

-- A round in which the iterator stays within the bytes, or does not.
module _ (fuel : ℕ) (bytes : List ℕ) (it : ℕ) (peer : Peer) (peers : List Peer)
    (e : drop it bytes ≡ compact (peer ∷ peers)) where
  within : ltb it (length bytes) ≡ true
  within = ground (arith, length-drop it bytes, ap length e)

  here : peer_at (drop it bytes) ≡ returns peer
  here = ap peer_at e ∙ peer_at-compact peer peers

  peers_from-step :
      leb (it + 6 + 6) (length bytes) ≡ true
      → peers_from (suc fuel) bytes it
        ≡ (peers_from fuel bytes (it + 6 + 6) >>= λ others. returns (peer ∷ others))
  unfolding peers_from
  peers_from-step inside = rw (within, here, inside) refl

  peers_from-beyond :
      leb (it + 6 + 6) (length bytes) ≡ false → peers_from (suc fuel) bytes it ≡ undefined
  unfolding peers_from
  peers_from-beyond outside = rw (within, here, outside) refl

peers_from-every_second :
    (peers : List Peer) (fuel : ℕ) (bytes : List ℕ) (it : ℕ)
    → drop it bytes ≡ compact peers
    → length peers < fuel
    → peers_from fuel bytes it ≡ every_second peers
peers_from-every_second peers zero bytes it e l = absurd (omega arith)
peers_from-every_second [] (suc fuel) bytes it e l =
    let done : ltb it (length bytes) ≡ false = ground (arith, length-drop it bytes, ap length e) in
    unfold peers_from in rw done refl
peers_from-every_second (peer ∷ []) (suc fuel) bytes it e l =
    peers_from-beyond fuel bytes it peer [] e (ground (arith, length-drop it bytes, ap length e))
peers_from-every_second (peer ∷ skipped ∷ peers) (suc fuel) bytes it e l =
    peers_from-step fuel bytes it peer (skipped ∷ peers) e
      (ground (arith, length-drop it bytes, ap length e))
    ∙ ap (λ (taken : Exec (List Peer)). taken >>= λ others. returns (peer ∷ others))
        (peers_from-every_second peers fuel bytes (it + 6 + 6)
          (drop-two bytes it (compact (peer ∷ skipped ∷ peers)) e) (omega arith))

length-compact : (peers : List Peer) → length peers ≤ length (compact peers)
length-compact [] = omega arith
length-compact (peer ∷ peers) = omega (arith, length-compact peers)

-- The answer of a tracker.
abbrev pub answer : ℤ → List Peer → BencodeValue
answer interval peers =
    dict (entry interval_key (integer interval) (entry peers_key (string (compact peers)) end))

answer-IsWellFormed :
    (interval : ℤ) (peers : List Peer)
    → IsInt64 interval
    → length (compact peers) < 2 ^ 63
    → IsWellFormed (answer interval peers)
unfolding IsWellFormed lex_lt
answer-IsWellFormed interval peers i l = ((omega arith, i, (omega arith, l, tt)), (refl, tt))

-- What an announcement is that has these peers.
abbrev pub announced : ℤ → Exec (List Peer) → Exec (Result Announce PeerError)
announced interval taken =
    taken >>= λ peers. returns (ok (record { interval = interval; peers = peers }))

response_of-answer :
    (interval : ℤ) (peers : List Peer)
    → response_of (answer interval peers) ≡ announced interval (every_second peers)
unfolding response_of as_dict as_int as_string at find lex_lt
response_of-answer interval peers =
    let read =
      peers_from-every_second peers (length (compact peers) + 1) (compact peers) 0 refl
        (omega (arith, length-compact peers)) in
    rw read refl

-- Of the answer of a tracker that sends addresses in compact form, with sizes that fit an int64_t,
-- the first, the third and so on are taken, and every second one is left out, if their number is
-- even; if it is odd, the call has undefined behaviour. A status of 0 or from 400 on is an error.
pub announce-every_second :
    (status_code : ℕ) (interval : ℤ) (peers : List Peer)
    → IsInt64 interval
    → length (compact peers) < 2 ^ 63
    → length (to_string (answer interval peers)) < 2 ^ 63
    → announce status_code (to_string (answer interval peers)) ≡ (
        if status_code == 0 || leb 400 status_code
        then returns (error announce_error)
        else announced interval (every_second peers))
unfolding announce parse_tracker_response
announce-every_second status_code interval peers i l m =
    rw
      (
        parse-to_string (answer interval peers) (answer-IsWellFormed interval peers i l)
            (λ e. absurd (cc)) m,
        response_of-answer interval peers,
      )
      refl
