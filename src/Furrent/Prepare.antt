-- ===== src/Furrent/Prepare.antt =====
-- src/furrent.cpp, Furrent::set_download_folder, Furrent::prepare_torrent_files and the part of
-- Furrent::add_torrent in front of it, over src/platform/io.cpp.
pub mod Folder
mod Examples
use furrent.Prelude.{
  ℕ, zero, suc, ◌+◌, ◌≤◌, ◌<◌, ◌≡◌, refl, sym, ap, ◌∙◌, ltb, List, [], ◌∷◌, ◌++◌, Bool, true, false,
  if◌then◌else◌, length, Option, none, some, Result, ok, error, Exec, returns, throws, undefined,
  out_of_fuel, arith, ◌>>=◌,
}
use furrent.Prelude.Int.{ℤ}
use furrent.Bencode.Value.{BencodeValue}
use furrent.Bencode.Parser.{parse}
use furrent.Torrent.{join}
use furrent.Torrent.Reading.{TorrentFile, ReadFile}
use furrent.Torrent.Reading
use furrent.Download.Socket.{Empty, empty}
use furrent.Platform.{
  IoError, file_already_exists, FileSystem, exists, touch, remove, create_directories,
  load_file_text,
}

pub data Error : Type 0 where
  generic_error loading_torrent_failed : Error

abbrev pub max_copy_attempts : ℕ
max_copy_attempts = 10

abbrev pub copy_suffix : List ℕ
copy_suffix = b' ' ∷ b'C' ∷ b'O' ∷ b'P' ∷ b'Y' ∷ []

abbrev pub slash : List ℕ → List ℕ → List ℕ
slash folder name = folder ++ b'/' ∷ name

-- `existence.valid() && *existence`
abbrev pub is_there : Result Bool IoError → Bool
is_there (ok there) = there
is_there (error e) = false

-- file.filepath.back(), which is undefined for an empty path
unfoldable pub back : List (List ℕ) → Exec (List ℕ)
back [] = undefined
back (section ∷ []) = returns section
back (section ∷ sections) = back sections

module _ {W : Type 0} (fs : FileSystem W) where
  abbrev pub with_creation :
      List ℕ → List ℕ → Result (List ℕ) IoError × W → Result Empty Error × List ℕ × W
  with_creation folder old (ok made, w) = (ok empty, folder, w)
  with_creation folder old (error e, w) = (error generic_error, old, w)

  abbrev pub with_existence :
      List ℕ → List ℕ → Result Bool IoError → W → Result Empty Error × List ℕ × W
  with_existence folder old (error e) w = (error generic_error, old, w)
  with_existence folder old (ok true) w = (ok empty, folder, w)
  with_existence folder old (ok false) w =
      with_creation folder old (create_directories fs folder false w)

  -- Furrent::set_download_folder, with _download_folder before and behind it.
  unfoldable pub set_download_folder : List ℕ → List ℕ → W → Result Empty Error × List ℕ × W
  set_download_folder folder old w = with_existence folder old (exists fs folder w) w

  -- The loop over the copies, with the attempts that are left: the path, and the attempts made.
  unfoldable pub free_path : ℕ → ℕ → List ℕ → W → List ℕ × ℕ
  free_path zero attempts path w = (path, attempts)
  free_path (suc left) attempts path w =
      let rest = free_path left (attempts + 1) (path ++ copy_suffix) w in
      if is_there (exists fs path w) then rest else (path, attempts)

  abbrev pub created : Exec (Result Empty IoError) × W → (W → Exec Bool × W) → Exec Bool × W
  created (returns (ok e), w) rest = rest w
  created (returns (error e), w) rest = (returns false, w)
  created (throws x, w) rest = (throws x, w)
  created (undefined, w) rest = (undefined, w)
  created (out_of_fuel, w) rest = (out_of_fuel, w)

  abbrev pub touch_in : List ℕ → Exec (List ℕ) → ℤ → W → Exec (Result Empty IoError) × W
  touch_in folder (returns name) size w = touch fs (slash folder name) size w
  touch_in folder (throws x) size w = (throws x, w)
  touch_in folder undefined size w = (undefined, w)
  touch_in folder out_of_fuel size w = (out_of_fuel, w)

  abbrev pub create_file :
      ReadFile → Result (List ℕ) IoError × W → (W → Exec Bool × W) → Exec Bool × W
  create_file file (error e, w) rest = (returns false, w)
  create_file file (ok folder, w) rest =
      created (touch_in folder (back file.filepath) file.length w) rest

  -- The loop over the files: whether all are created.
  unfoldable pub create_files : List ℕ → List ReadFile → W → Exec Bool × W
  create_files folder [] w = (returns true, w)
  create_files folder (file ∷ files) w =
      create_file file
        (create_directories fs (slash folder (join (length file.filepath) 0 file.filepath)) true w)
        (create_files folder files)

  -- Where a file is not created, what is there is removed. A success is the folder's name.
  abbrev pub cleaned : List ℕ → Exec Bool × W → Exec (Option (List ℕ)) × W
  cleaned folder (returns true, w) = (returns (some folder), w)
  cleaned folder (returns false, w) = (returns none, (remove fs folder w).1)
  cleaned folder (throws x, w) = (throws x, w)
  cleaned folder (undefined, w) = (undefined, w)
  cleaned folder (out_of_fuel, w) = (out_of_fuel, w)

  abbrev pub fill_folder : List ReadFile → Result (List ℕ) IoError × W → Exec (Option (List ℕ)) × W
  fill_folder files (error e, w) = (returns none, w)
  fill_folder files (ok folder, w) = cleaned folder (create_files folder files w)

  unfoldable pub prepare_torrent_files : List ℕ → TorrentFile → W → Exec (Option (List ℕ)) × W
  prepare_torrent_files download_folder descriptor w =
      let (path, attempts) =
        free_path max_copy_attempts 0 (slash download_folder descriptor.name) w in
      if ltb max_copy_attempts attempts
      then (returns none, w)
      else fill_folder descriptor.files (create_directories fs path false w)
