-- ===== src/Torrent/Reading.antt =====
-- src/torrent.cpp, TorrentFile::TorrentFile(const BencodeValue&): the descriptor that a parsed
-- .torrent file describes. A reference cast to another class throws std::bad_cast, and std::map::at
-- without the key std::out_of_range. SHA-1 is the parameter `calc`.
use furrent.Prelude.{
  ℕ, ◌-◌, ◌^◌, ◌||◌, ltb, List, [], ◌∷◌, if◌then◌else◌, Option, none, some, ok, error, Exec,
  returns, throws, out_of_range, invalid_argument, bad_cast, logic_error, ◌>>=◌,
}
use furrent.Prelude.Int.{ℤ, pos, negsuc, add_int64, div_int64, to_int32, eq_ℤ}
use furrent.Bencode.Value.{
  BencodeValue, Items, Entries, integer, string, list, dict, nil, cons, end, entry, to_string,
}
use furrent.Bencode.Parser.{lex_lt}
use furrent.Hash.{compute_info_hash, split_piece_hashes, count}

-- A File, whose length may be negative when it is read.
pub record ReadFile : Type 0 where
  pub filepath : List (List ℕ)
  pub length : ℤ

pub record TorrentFile : Type 0 where
  pub announce_url : List ℕ
  pub info_hash : List ℕ
  pub piece_hashes : List (List ℕ)
  pub piece_length : ℤ
  pub length : ℤ
  pub pieces_count : ℤ
  pub name : List ℕ
  pub folder_name : List ℕ
  pub files : List ReadFile

-- dynamic_cast<BencodeDict&>(value).value(), and so on
unfoldable pub as_dict : BencodeValue → Exec Entries
as_dict (dict es) = returns es
as_dict _ = throws bad_cast

unfoldable pub as_string : BencodeValue → Exec (List ℕ)
as_string (string s) = returns s
as_string _ = throws bad_cast

unfoldable pub as_list : BencodeValue → Exec Items
as_list (list xs) = returns xs
as_list _ = throws bad_cast

unfoldable pub as_int : BencodeValue → Exec ℤ
as_int (integer n) = returns n
as_int _ = throws bad_cast

-- std::map::find, by the keys' order
unfoldable pub find : List ℕ → Entries → Option BencodeValue
find key end = none
find key (entry k v es) = if lex_lt key k || lex_lt k key then find key es else some v

-- std::map::at
unfoldable pub at : List ℕ → Entries → Exec BencodeValue
at key es = elim (find key es) [ none ↦ throws out_of_range | some v ↦ returns v ]

abbrev pub announce_key : List ℕ
announce_key = b'a' ∷ b'n' ∷ b'n' ∷ b'o' ∷ b'u' ∷ b'n' ∷ b'c' ∷ b'e' ∷ []

abbrev pub info_key : List ℕ
info_key = b'i' ∷ b'n' ∷ b'f' ∷ b'o' ∷ []

abbrev pub name_key : List ℕ
name_key = b'n' ∷ b'a' ∷ b'm' ∷ b'e' ∷ []

abbrev pub files_key : List ℕ
files_key = b'f' ∷ b'i' ∷ b'l' ∷ b'e' ∷ b's' ∷ []

abbrev pub length_key : List ℕ
length_key = b'l' ∷ b'e' ∷ b'n' ∷ b'g' ∷ b't' ∷ b'h' ∷ []

abbrev pub path_key : List ℕ
path_key = b'p' ∷ b'a' ∷ b't' ∷ b'h' ∷ []

abbrev pub piece_length_key : List ℕ
piece_length_key = b'p' ∷ b'i' ∷ b'e' ∷ b'c' ∷ b'e' ∷ b' ' ∷ length_key

abbrev pub pieces_key : List ℕ
pieces_key = b'p' ∷ b'i' ∷ b'e' ∷ b'c' ∷ b'e' ∷ b's' ∷ []

-- The inner loop over the segments of a file's path.
unfoldable pub segments_of : Items → Exec (List (List ℕ))
segments_of nil = returns []
segments_of (cons path_node nodes) = do
  segment ← as_string path_node
  segments ← segments_of nodes
  returns (segment ∷ segments)

-- The loop over the files, with this->length so far.
unfoldable pub files_of : ℤ → Items → Exec (List ReadFile × ℤ)
files_of len nil = returns ([], len)
files_of len (cons file_node nodes) = do
  file_dict ← as_dict file_node
  length_node ← at length_key file_dict
  file_length ← as_int length_node
  len' ← add_int64 len file_length
  path_node ← at path_key file_dict
  path ← as_list path_node
  filepath ← segments_of path
  (files, total) ← files_of len' nodes
  returns (record { filepath = filepath; length = file_length } ∷ files, total)

-- The files of a torrent, several or the single one, and this->length.
unfoldable pub files_and_length : List ℕ → Entries → Exec (List ReadFile × ℤ)
files_and_length name info_dict = elim (find files_key info_dict) [
  | some files_node ↦ (as_list files_node >>= files_of (pos 0))
  | none ↦
      (at length_key info_dict >>= λ length_node. as_int length_node >>= λ len.
      returns (record { filepath = name ∷ []; length = len } ∷ [], len))
]

-- The hashes of the pieces, or the exception of a text that cannot be split.
unfoldable pub piece_hashes_of : List ℕ → Exec (List (List ℕ))
piece_hashes_of pieces = split_piece_hashes pieces >>= λ r_hashes. elim r_hashes [
  | error e ↦ throws invalid_argument
  | ok hashes ↦ if ltb (2 ^ 63 - 1) (count hashes) then throws out_of_range else returns hashes
]

-- `(length + piece_length - 1) / piece_length`
unfoldable pub count_pieces : ℤ → ℤ → Exec ℤ
count_pieces len piece_length = do
  sum ← add_int64 len piece_length
  last ← add_int64 sum (negsuc 0)
  div_int64 last piece_length

-- TorrentFile::TorrentFile
unfoldable pub read : (List ℕ → List ℕ) → BencodeValue → Exec TorrentFile
read calc tree = do
  root ← as_dict tree
  announce_node ← at announce_key root
  announce_url ← as_string announce_node
  info_node ← at info_key root
  info_dict ← as_dict info_node
  info_hash ← compute_info_hash calc (to_string info_node)
  name_node ← at name_key info_dict
  name ← as_string name_node
  (files, len) ← files_and_length name info_dict
  piece_length_node ← at piece_length_key info_dict
  wide ← as_int piece_length_node
  pieces_node ← at pieces_key info_dict
  pieces ← as_string pieces_node
  hashes ← piece_hashes_of pieces
  pieces_count ← count_pieces len (to_int32 wide)
  if eq_ℤ pieces_count (pos (count hashes))
      then returns (record {
        announce_url = announce_url;
        info_hash = info_hash;
        piece_hashes = hashes;
        piece_length = to_int32 wide;
        length = len;
        pieces_count = pieces_count;
        name = name;
        folder_name = [];
        files = files;
      })
      else throws logic_error
