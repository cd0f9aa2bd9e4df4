-- ===== src/Peer/Examples.antt =====
-- The theorem on src/peer.cpp at a concrete answer.
use furrent.Prelude.{◌<◌, ◌^◌, ◌≡◌, refl, List, [], ◌∷◌, length, arith, returns, undefined, ok}
use furrent.Prelude.Int.{pos}
use furrent.Bencode.Value.{to_string, string_text, decimal, decimal_from, decimal_ℤ}
use furrent.Peer.{address, Peer, announce}
use furrent.Peer.Response.{answer, announce-every_second}

-- 10.0.0.1:6881 and 10.0.0.2:6882
abbrev first : Peer
first = record { ip = 167772161; port = 6881 }

abbrev second : Peer
second = record { ip = 167772162; port = 6882 }

abbrev two_peers : List Peer
two_peers = first ∷ second ∷ []

answer_fits : length (to_string (answer (pos 900) two_peers)) < 2 ^ 63
unfolding to_string string_text decimal decimal_from decimal_ℤ
answer_fits = omega arith

announce-every_second_example :
    announce 200 (to_string (answer (pos 900) two_peers))
    ≡ returns (ok (record { interval = pos 900; peers = first ∷ [] }))
announce-every_second_example =
    announce-every_second 200 (pos 900) two_peers (omega arith) (omega arith) answer_fits

-- A single peer, behind which the iterator is moved beyond the end.
one_fits : length (to_string (answer (pos 900) (first ∷ []))) < 2 ^ 63
unfolding to_string string_text decimal decimal_from decimal_ℤ
one_fits = omega arith

one_peer : announce 200 (to_string (answer (pos 900) (first ∷ []))) ≡ undefined
one_peer = announce-every_second 200 (pos 900) (first ∷ []) (omega arith) (omega arith) one_fits

address-local :
    address (record { ip = 2130706433; port = 80 })
    ≡ b'1' ∷ b'2' ∷ b'7' ∷ b'.' ∷ b'0' ∷ b'.' ∷ b'0' ∷ b'.' ∷ b'1' ∷ b':' ∷ b'8' ∷ b'0' ∷ []
unfolding address decimal decimal_from
address-local = refl
