-- ===== src/Furrent/Prepare/Examples.antt =====
-- src/furrent.cpp, prepare_torrent_files where every path is taken. The state is the list of the paths
-- that were removed.
use furrent.Prelude.{ℕ, ◌≡◌, refl, List, [], ◌∷◌, true, false, some, none, returns, ok, arith}
use furrent.Prelude.Int.{pos}
use furrent.Torrent.{join}
use furrent.Torrent.Reading.{TorrentFile, ReadFile}
use furrent.Platform.{FileSystem, no_error, exists, remove, create_directories, parent_of}
use furrent.Furrent.Prepare.{slash, back, fill_folder, prepare_torrent_files}
use furrent.Furrent.Prepare.Folder.{copy_of, prepare-first_free, prepare-taken}

abbrev full : FileSystem (List (List ℕ))
full = record {
  query = λ path w. some true;
  remove_all = λ path w. (true, path ∷ w);
  make_directories = λ path w. (no_error, w);
  open_new = λ path w. (true, w);
  put_one = λ path place w. (true, w);
  open_old = λ path w. (true, w);
  put = λ path bytes place w. (true, w);
  text_of = λ path w. none;
}

abbrev file : ReadFile
file = record { filepath = (b'f' ∷ []) ∷ []; length = pos 3 }

abbrev descriptor : TorrentFile
descriptor = record {
  announce_url = [];
  info_hash = [];
  piece_hashes = [];
  piece_length = pos 4;
  length = pos 3;
  pieces_count = pos 1;
  name = b't' ∷ [];
  folder_name = [];
  files = file ∷ [];
}

abbrev here : List ℕ
here = b'.' ∷ []

abbrev last_name : List ℕ
last_name = copy_of (slash here (b't' ∷ [])) 10

taken : (path : List ℕ) → exists full path [] ≡ ok true
unfolding exists
taken path = refl

last_made : create_directories full last_name false [] ≡ (ok last_name, [])
unfolding create_directories
last_made = refl

file_made :
    create_directories full (slash last_name (join 1 0 ((b'f' ∷ []) ∷ []))) true []
    ≡ (ok last_name, [])
unfolding create_directories parent_of join copy_of
file_made = refl

file_named : back ((b'f' ∷ []) ∷ []) ≡ returns (b'f' ∷ [])
unfolding back
file_named = refl

abbrev tenth : ℕ
tenth = 10

prepare-first_free_example :
    prepare_torrent_files full here descriptor []
    ≡ fill_folder full (file ∷ []) (create_directories full last_name false [])
prepare-first_free_example = prepare-first_free full here descriptor tenth [] (
  omega arith,
  (λ j l. taken (copy_of (slash here (b't' ∷ [])) j)),
  λ l. absurd (omega (arith, l)),
)

prepare-taken_example :
    prepare_torrent_files full here descriptor [] ≡ (returns none, (remove full last_name []).1)
prepare-taken_example =
    prepare-taken full here descriptor last_name (b'f' ∷ []) last_name file [] [] [] []
      (λ j l. taken (copy_of (slash here (b't' ∷ [])) j)) last_made refl file_made file_named
      (taken (slash last_name (b'f' ∷ [])))
