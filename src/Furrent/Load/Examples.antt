-- ===== src/Furrent/Load/Examples.antt =====
-- src/furrent.cpp, the loading of a torrent with two files, where no path is taken.
use furrent.Prelude.{
  ℕ, ◌+◌, ◌<◌, ◌^◌, ◌≡◌, refl, List, [], ◌∷◌, true, false, length, replicate, some, ok, returns,
  arith,
}
use furrent.Prelude.Int.{pos}
use furrent.Bencode.Value.{to_string, string_text, decimal, decimal_from, decimal_ℤ}
use furrent.Bencode.Parser.{lex_lt}
use furrent.Bencode.Steps.{IsWellFormed}
use furrent.Torrent.{File, join}
use furrent.Torrent.Metainfo.{info, tree, described}
use furrent.Platform.{
  FileSystem, no_error, exists, touch, create_directories, load_file_text, parent_of,
}
use furrent.Furrent.Prepare.{back, free_path, create_files, prepare_torrent_files}
use furrent.Furrent.Load.{load_torrent, load_torrent-tree}

abbrev two_files : List File
two_files =
    record { filepath = (b'a' ∷ []) ∷ []; length = 3 }
    ∷ record { filepath = (b'b' ∷ []) ∷ (b'c' ∷ []) ∷ []; length = 9 }
    ∷ []

abbrev two_hashes : List (List ℕ)
two_hashes = replicate 20 1 ∷ replicate 20 2 ∷ []

abbrev digest : List ℕ → List ℕ
digest text = replicate 20 7

abbrev text : List ℕ
text = to_string (tree (b'u' ∷ []) (b'n' ∷ []) two_files (pos 8) two_hashes)

-- The state is the number of files that were created.
abbrev empty_disk : FileSystem ℕ
empty_disk = record {
  query = λ path w. some false;
  remove_all = λ path w. (true, 0);
  make_directories = λ path w. (no_error, w);
  open_new = λ path w. (true, w + 1);
  put_one = λ path place w. (true, w);
  open_old = λ path w. (true, w);
  put = λ path bytes place w. (true, w);
  text_of = λ path w. some text;
}

abbrev here : List ℕ
here = b'.' ∷ []

abbrev folder : List ℕ
folder = b'.' ∷ b'/' ∷ b'n' ∷ []

abbrev no_files : ℕ
no_files = 0

loaded : load_file_text empty_disk [] no_files ≡ ok text
unfolding load_file_text
loaded = refl

well_formed : IsWellFormed (tree (b'u' ∷ []) (b'n' ∷ []) two_files (pos 8) two_hashes)
unfolding IsWellFormed lex_lt
well_formed = (
  (
    omega arith,
    omega arith,
    (
      omega arith,
      (
        (
          omega arith,
          (
            ((omega arith, omega arith, (omega arith, (omega arith, tt), tt)), (refl, tt)),
            (
              (
                (omega arith, omega arith, (omega arith, (omega arith, (omega arith, tt)), tt)),
                (refl, tt),
              ),
              tt,
            ),
          ),
          (omega arith, omega arith, (omega arith, omega arith, (omega arith, omega arith, tt))),
        ),
        (refl, (refl, (refl, tt))),
      ),
      tt,
    ),
  ),
  (refl, tt),
)

info_fits : length (to_string (info (b'u' ∷ []) (b'n' ∷ []) two_files (pos 8) two_hashes)) < 2 ^ 31
unfolding to_string string_text decimal decimal_from decimal_ℤ
info_fits = omega arith

text_fits : length text < 2 ^ 63
unfolding to_string string_text decimal decimal_from decimal_ℤ
text_fits = omega arith

prepared_here :
    prepare_torrent_files empty_disk here
      (described (b'u' ∷ []) (b'n' ∷ []) two_files (pos 8) two_hashes digest (pos 2))
      no_files
    ≡ (returns (some folder), 2)
unfolding prepare_torrent_files free_path create_files create_directories parent_of join back exists
    touch
prepared_here = refl

load_torrent-tree_example : load_torrent empty_disk digest here [] no_files ≡ (
  returns (
      ok (record (described (b'u' ∷ []) (b'n' ∷ []) two_files (pos 8) two_hashes digest (pos 2)) {
        folder_name = folder;
      })),
  2,
)
load_torrent-tree_example =
    load_torrent-tree empty_disk digest here (b'u' ∷ []) (b'n' ∷ []) two_files 8 two_hashes []
      folder no_files 2 loaded well_formed text_fits
      ((refl, (refl, tt)), omega arith, omega arith, info_fits) (omega arith) (omega arith)
      (omega arith) refl prepared_here
