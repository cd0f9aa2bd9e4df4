-- ===== src/Download/Downloader/Script.antt =====
-- A socket that reads a list of bytes, which is all that the peer sends, and a torrent of one piece of
-- three bytes.
use furrent.Prelude.{
  ℕ, ◌≤◌, ◌≡◌, inl, inr, refl, ap, List, [], ◌∷◌, ◌++◌, true, if◌then◌else◌, leb, length,
  length-take, length-drop, length-append, take, drop, take-append, drop-append, replicate, some,
  Result, ok, error, Exec, returns, throws, invalid_argument, arith, Bool-cases,
}
use furrent.Prelude.Int.{ℤ, pos, negsuc, pos_part}
use furrent.Peer.{Peer}
use furrent.Hash.{verify_piece, hash_eq}
use furrent.Torrent.Reading.{TorrentFile}
use furrent.Download.Util.{encode_integer}
use furrent.Download.Bitfield.{Bitfield, over_storage, get}
use furrent.Download.Message.{
  Message, keep_alive, piece, encode, encode_framed, encode_payload, message_id,
}
use furrent.Download.Socket.{SocketError, timeout, empty}
use furrent.Download.Downloader.{Sockets, Downloader}
use furrent.Download.Downloader.Connection.{Answers, ReadsWhole}
use furrent.Download.Downloader.Supply.{Takes, IsFinite}
use furrent.Download.Downloader.Delivery.{Delivers}
use furrent.Download.Downloader.Blocks.{
  blocks_total, block_offset, block_length, hash_at, piece_length_at,
}
use furrent.Download.Downloader.Blocks.Assembly.{block_of}
use furrent.Download.Downloader.Transfer.{Downloaded}
use furrent.Download.Downloader.Transfer.Messages.{IsServing, blocks_in, IsBrought, Spells}
use furrent.Download.Downloader.Transfer.Completion.{IsPieceOf, IsAnswer}

-- A read takes the bytes from the front of the list; with fewer left, it waits until its time is over.
unfoldable pub read_script : ℤ → ℤ → List ℕ → Exec (Result (List ℕ) SocketError) × List ℕ
read_script (negsuc n) t w = (throws invalid_argument, w)
read_script (pos n) t w =
    if leb n (length w) then (returns (ok (take n w)), drop n w) else (returns (error timeout), w)

unfoldable pub script : Sockets (List ℕ)
unfolding read_script
script = record {
  create = λ w. w;
  is_open = λ w. true;
  connect = λ ip port t w. (ok empty, w);
  write = λ bytes t w. (ok empty, w);
  read = read_script;
  close = λ w. w;
  now = λ w. 0;
}

pub script_reads : ReadsWhole script
unfolding script read_script Answers
script_reads n t w = elim (Bool-cases (leb n (length w))) [
  | inl e ↦ rw e (omega (arith, length-take n w, short e))
  | inr e ↦ rw e tt
]
  where
    short : leb n (length w) ≡ true → n ≤ length w
    short e = ground arith

pub script_finite : IsFinite script length
unfolding script read_script Takes
script_finite = record {
  creates = λ w. omega arith;
  connects = λ ip port t w. omega arith;
  writes = λ bytes t w. omega arith;
  reads = takes;
}
  where
    takes : (n t : ℤ) (w : List ℕ) → Takes script length (pos_part n) (length w) (read_script n t w)
    takes (negsuc n) t w = tt
    takes (pos n) t w = elim (Bool-cases (leb n (length w))) [
      | inl e ↦ rw e (ground (arith, length-drop n w, e))
      | inr e ↦ rw e tt
    ]

-- All that is left to read.
abbrev pub Arrives : List ℕ → List ℕ → Type 0
Arrives bytes w = w ≡ bytes

pub script_delivers : Delivers script Arrives
unfolding script read_script
script_delivers = record {
  reads = λ bytes rest t w e. (rest, taken bytes rest t w e, refl);
  writes = λ out bytes t w e. (w, refl, e);
}
  where
    taken :
        (bytes rest : List ℕ) (t : ℤ) (w : List ℕ)
        → w ≡ bytes ++ rest
        → read_script (pos (length bytes)) t w ≡ (returns (ok bytes), rest)
    taken bytes rest t w e =
        let long : leb (length bytes) (length (bytes ++ rest)) ≡ true =
          ground (arith, length-append bytes rest) in
        rw (e, long, take-append bytes rest, drop-append bytes rest) refl

abbrev pub torrent : TorrentFile
torrent = record {
  announce_url = [];
  info_hash = replicate 20 1;
  piece_hashes = (9 ∷ []) ∷ [];
  piece_length = pos 4;
  length = pos 3;
  pieces_count = pos 1;
  name = [];
  folder_name = [];
  files = [];
}

abbrev pub calc : List ℕ → List ℕ
calc bytes = 9 ∷ []

abbrev pub peer : Peer
peer = record { ip = 0; port = 0 }

abbrev pub content : List ℕ
content = 1 ∷ 2 ∷ 3 ∷ []

abbrev pub answer : List Message
answer = keep_alive ∷ piece (pos 0) (pos 0) content ∷ []

abbrev pub answer_bytes : List ℕ
answer_bytes = 0 ∷ 0 ∷ 0 ∷ 0 ∷ 0 ∷ 0 ∷ 0 ∷ 12 ∷ 7 ∷ 0 ∷ 0 ∷ 0 ∷ 0 ∷ 0 ∷ 0 ∷ 0 ∷ 0 ∷ content

abbrev pub all_pieces : Bitfield
all_pieces = over_storage (128 ∷ []) (pos 1)

abbrev pub zero_index : ℕ
zero_index = 0

abbrev pub hash : List ℕ
hash = 9 ∷ []

pub piece_of : IsPieceOf torrent calc zero_index content hash
unfolding piece_length_at hash_at verify_piece hash_eq
piece_of = record {
  in_range = refl;
  sized = refl;
  not_empty = omega arith;
  small_index = omega arith;
  small_piece = omega arith;
  hashed = refl;
  verifies = refl;
}

pub answer_of : IsAnswer torrent calc zero_index content hash answer
unfolding IsServing blocks_in IsBrought blocks_total block_offset block_of block_length
answer_of = record {
  serving = (tt, ((0, omega arith, refl, refl), tt));
  as_many = refl;
  all_bytes = λ j h. inl (ap pos (omega (arith, h)));
}

pub spelled : Spells (pos 1) answer answer_bytes
unfolding Spells encode encode_framed encode_payload encode_integer message_id
spelled = (
  0 ∷ 0 ∷ 0 ∷ 0 ∷ [],
  0 ∷ 0 ∷ 0 ∷ 12 ∷ 7 ∷ 0 ∷ 0 ∷ 0 ∷ 0 ∷ 0 ∷ 0 ∷ 0 ∷ 0 ∷ content,
  tt,
  refl,
  refl,
  (
    0 ∷ 0 ∷ 0 ∷ 12 ∷ 7 ∷ 0 ∷ 0 ∷ 0 ∷ 0 ∷ 0 ∷ 0 ∷ 0 ∷ 0 ∷ content,
    [],
    (omega arith, omega arith, omega arith),
    refl,
    refl,
    tt,
  ),
)

abbrev pub connected : Downloader (List ℕ)
connected = record {
  world = answer_bytes;
  socket = true;
  choked = true;
  bitfield = some all_pieces;
}

abbrev pub piece_zero : Downloaded
piece_zero = record { index = pos 0; content = content }

abbrev pub fuel : ℕ
fuel = 50

pub has_zero : get all_pieces (pos 0) ≡ returns true
unfolding get over_storage
has_zero = refl
