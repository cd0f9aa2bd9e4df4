-- ===== src/Torrent/Metainfo.antt =====
-- The descriptor of src/torrent.cpp that is read from the tree of a torrent with several files.
mod Examples
use furrent.Prelude.{
  ℕ, zero, suc, ◌+◌, ◌-◌, ◌*◌, ◌/◌, ◌%◌, ◌^◌, ◌<◌, ◌≤◌, ◌≡◌, ◌≢◌, ◌==◌, ltb, leb, not, refl, sym,
  ap, ◌∙◌, List, [], ◌∷◌, ◌++◌, Bool, true, false, if◌then◌else◌, Option, none, some, Result, ok,
  error, Exec, returns, throws, undefined, out_of_range, invalid_argument, logic_error, ◌>>=◌,
  length, arith, if-true, if-false, inl, inr, Bool-cases,
}
use furrent.Prelude.Int.{ℤ, pos, negsuc, add_int64, div_int64, to_int32, eq_ℤ, difference}
use furrent.Bencode.Value.{
  BencodeValue, Items, Entries, integer, string, list, dict, nil, cons, end, entry, to_string,
}
use furrent.Bencode.Parser.{lex_lt}
use furrent.Hash.{
  compute_info_hash, split_piece_hashes, split_piece_hashes-concat, count, concat, AreHashes,
}
use furrent.Torrent.{File}
use furrent.Torrent.Cover.{total}
use furrent.Torrent.Reading.{
  ReadFile, TorrentFile, as_dict, as_string, as_list, as_int, find, at, announce_key, info_key,
  name_key, files_key, length_key, path_key, piece_length_key, pieces_key, segments_of, files_of,
  files_and_length, piece_hashes_of, count_pieces, read,
}

abbrev pub as_read : File → ReadFile
as_read file = record { filepath = file.filepath; length = pos file.length }

abbrev pub all_as_read : List File → List ReadFile
all_as_read [] = []
all_as_read (file ∷ files) = as_read file ∷ all_as_read files

abbrev pub segment_nodes : List (List ℕ) → Items
segment_nodes [] = nil
segment_nodes (segment ∷ segments) = cons (string segment) (segment_nodes segments)

abbrev pub file_node : File → BencodeValue
file_node file = dict (
    entry length_key (integer (pos file.length))
      (entry path_key (list (segment_nodes file.filepath)) end))

abbrev pub file_nodes : List File → Items
file_nodes [] = nil
file_nodes (file ∷ files) = cons (file_node file) (file_nodes files)

segments_of-nodes :
    (segments : List (List ℕ)) → segments_of (segment_nodes segments) ≡ returns segments
unfolding segments_of as_string
segments_of-nodes [] = refl
segments_of-nodes (segment ∷ segments) = rw (segments_of-nodes segments) refl

add_int64-pos : (a b : ℕ) → a + b < 2 ^ 63 → add_int64 (pos a) (pos b) ≡ returns (pos (a + b))
add_int64-pos a b h = ground arith

files_of-nodes :
    (files : List File) (a : ℕ)
    → a + total files < 2 ^ 63
    → files_of (pos a) (file_nodes files) ≡ returns (all_as_read files, pos (a + total files))
unfolding files_of as_dict as_int as_list at find lex_lt
files_of-nodes [] a h = ap (λ (n : ℕ). returns ([], pos n)) (omega arith)
files_of-nodes (file ∷ files) a h =
    rw
      (
        add_int64-pos a file.length (omega arith),
        segments_of-nodes file.filepath,
        files_of-nodes files (a + file.length) (omega arith),
      )
      (ap (λ (n : ℕ). returns (as_read file ∷ all_as_read files, pos n)) (omega arith))

to_int32-pos : (n : ℕ) → n < 2 ^ 31 → to_int32 (pos n) ≡ pos n
to_int32-pos n h =
    let bits : (n % 2 ^ 32 + 2 ^ 32) % 2 ^ 32 ≡ n = omega arith in
    let low : ltb n (2 ^ 31) ≡ true = ground arith in rw (bits, low) refl

add_int64-pred :
    (a b n : ℕ) → a + b ≡ suc n → n < 2 ^ 63 → add_int64 (pos (a + b)) (negsuc 0) ≡ returns (pos n)
add_int64-pred a b n e h = ground arith

difference-zero : (n : ℕ) → difference n 0 ≡ pos n
difference-zero n = ground arith

div_int64-pos : (n q : ℕ) → div_int64 (pos n) (pos (suc q)) ≡ returns (pos (n / suc q))
div_int64-pos n q =
    let none_below : 0 / suc q ≡ 0 = omega arith in
    rw none_below (ap returns (difference-zero (n / suc q)))

count_pieces-pos :
    (t p : ℕ)
    → 0 < p
    → t + p < 2 ^ 63
    → count_pieces (pos t) (pos p) ≡ returns (pos ((t + p - 1) / p))
unfolding count_pieces
count_pieces-pos t zero h l = absurd (omega arith)
count_pieces-pos t (suc q) h l =
    rw
      (
        add_int64-pos t (suc q) l,
        add_int64-pred t (suc q) (t + q) (omega arith) (omega arith),
        div_int64-pos (t + q) q,
      )
      (ap (λ (n : ℕ). returns (pos (n / suc q))) (omega arith))

count_pieces-zero : (t : ℕ) → t < 2 ^ 63 → count_pieces (pos t) (pos 0) ≡ undefined
unfolding count_pieces
count_pieces-zero zero h = refl
count_pieces-zero (suc t) h =
    rw
      (
        add_int64-pos (suc t) 0 (omega arith),
        add_int64-pred (suc t) 0 t (omega arith) (omega arith),
      )
      refl

eq_ℤ-pos : (a b : ℕ) → eq_ℤ (pos a) (pos b) ≡ (a == b)
eq_ℤ-pos a b = ground arith

-- The tree of a .torrent file with several files. The length of a piece may be any integer.
module _ (url name : List ℕ) (files : List File) (wide : ℤ) (hashes : List (List ℕ)) where
  abbrev pub info : BencodeValue
  info = dict (
      entry files_key (list (file_nodes files)) (
        entry name_key (string name)
          (entry piece_length_key (integer wide) (entry pieces_key (string (concat hashes)) end))))

  abbrev pub tree : BencodeValue
  tree = dict (entry announce_key (string url) (entry info_key info end))

  -- What TorrentFile makes of it, with its number of pieces.
  abbrev pub described : (List ℕ → List ℕ) → ℤ → TorrentFile
  described calc pieces_count = record {
    announce_url = url;
    info_hash = calc (to_string info);
    piece_hashes = hashes;
    piece_length = to_int32 wide;
    length = pos (total files);
    pieces_count = pieces_count;
    name = name;
    folder_name = [];
    files = all_as_read files;
  }

  -- The sizes of the parts of a torrent are in bounds.
  abbrev pub Fits : Type 0
  Fits =
      AreHashes hashes
      × (20 * count hashes < 2 ^ 63)
      × (total files < 2 ^ 63)
      × (length (to_string info) < 2 ^ 31)

  piece_hashes_of-concat : Fits → piece_hashes_of (concat hashes) ≡ returns hashes
  unfolding piece_hashes_of
  piece_hashes_of-concat (h, l, _, _) =
      let few : ltb (2 ^ 63 - 1) (count hashes) ≡ false = ground arith in
      rw (split_piece_hashes-concat hashes h l, few) refl

  compute_info_hash-info :
      (calc : List ℕ → List ℕ)
      → Fits
      → compute_info_hash calc (to_string info) ≡ returns (calc (to_string info))
  unfolding compute_info_hash
  compute_info_hash-info calc (_, _, _, l) =
      let small : ltb (2 ^ 31 - 1) (length (to_string info)) ≡ false = ground arith in rw small refl

  files_and_length-info :
      (info_dict : Entries)
      → find files_key info_dict ≡ some (list (file_nodes files))
      → total files < 2 ^ 63
      → files_and_length name info_dict ≡ returns (all_as_read files, pos (total files))
  unfolding files_and_length as_list
  files_and_length-info info_dict e h =
      rw (e, files_and_length, files_of-nodes files 0 (omega arith))
        (ap (λ (n : ℕ). returns (all_as_read files, pos n)) (omega arith))

  -- The reading of the tree, up to the number of its pieces.
  read-tree_counts :
      (calc : List ℕ → List ℕ)
      → Fits
      → read calc tree ≡ (
          count_pieces (pos (total files)) (to_int32 wide) >>= λ pieces_count.
          if eq_ℤ pieces_count (pos (count hashes))
          then returns (described calc pieces_count)
          else throws logic_error)
  unfolding read as_dict as_string as_int at find lex_lt
  read-tree_counts calc fits =
      rw
        (
          compute_info_hash-info calc fits,
          files_and_length-info _ refl fits.2,
          piece_hashes_of-concat fits,
        )
        refl

  -- A descriptor is read from the tree of a torrent with several files, whose parts fit their
  -- integers and whose pieces have a positive length, exactly when there are as many hashes as
  -- pieces: the total length over that of a piece, rounded up. Otherwise std::logic_error is thrown.
  pub read-tree :
      (calc : List ℕ → List ℕ) (piece_length : ℕ)
      → Fits
      → wide ≡ pos piece_length
      → 0 < piece_length
      → piece_length < 2 ^ 31
      → total files + piece_length < 2 ^ 63
      → read calc tree ≡ (
          if (total files + piece_length - 1) / piece_length == count hashes
          then returns (described calc (pos (count hashes)))
          else throws logic_error)
  read-tree calc piece_length fits e some_bytes narrow sum =
      let len = total files in
      let same : to_int32 wide ≡ pos piece_length =
        ap to_int32 e ∙ to_int32-pos piece_length narrow in
      let number = (len + piece_length - 1) / piece_length in
      let counted : count_pieces (pos len) (to_int32 wide) ≡ returns (pos number) =
        ap (count_pieces (pos len)) same ∙ count_pieces-pos len piece_length some_bytes sum in
      read-tree_counts calc fits
      ∙ rw counted (elim (Bool-cases (number == count hashes)) [
        | inl equal ↦
            rw (eq_ℤ-pos number (count hashes), equal)
              (ap (λ (n : ℕ). returns (described calc (pos n))) (ground arith))
        | inr other ↦ rw (eq_ℤ-pos number (count hashes), other) refl
      ])

  -- The constructor divides by zero where the length of a piece is a multiple of 2 ^ 32, and the
  -- parts of the torrent fit their integers.
  pub read-zero_piece_length :
      (calc : List ℕ → List ℕ) → Fits → to_int32 wide ≡ pos 0 → read calc tree ≡ undefined
  read-zero_piece_length calc fits e =
      let counted : count_pieces (pos (total files)) (to_int32 wide) ≡ undefined =
        ap (count_pieces (pos (total files))) e ∙ count_pieces-zero (total files) fits.2 in
      read-tree_counts calc fits ∙ rw counted refl
