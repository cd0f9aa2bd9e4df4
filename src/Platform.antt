-- ===== src/Platform.antt =====
-- src/platform/io.hpp and io.cpp, over the file system and the streams of the standard library, whose
-- calls are a record of functions on a state W. A path and a text are lists of characters.
mod Examples
use furrent.Prelude.{
  ℕ, ◌-◌, ◌^◌, ◌==◌, ltb, List, [], ◌∷◌, ◌++◌, Bool, true, false, if◌then◌else◌, length, Option,
  none, some, Result, ok, error, Exec, returns, throws, undefined, out_of_fuel, invalid_argument,
}
use furrent.Prelude.Int.{ℤ, pos, eq_ℤ, sub_int64}
use furrent.Download.Socket.{Empty, empty}

pub data IoError : Type 0 where
  generic_error cannot_open_file invalid_path path_does_not_exists : IoError
  file_already_exists directory_already_exists : IoError

-- The error code of std::filesystem::create_directories, by what the program tells apart.
pub data DirectoryCode : Type 0 where
  no_error file_exists other_error : DirectoryCode

-- `query` is std::filesystem::exists, none for an error; the other calls say first whether they succeed.
-- `open_new` is an ofstream's open, `open_old` an fstream's; `put_one` goes to a position and writes
-- the character 1, `put` bytes.
pub record FileSystem (W : Type 0) : Type 0 where
  pub query : List ℕ → W → Option Bool
  pub remove_all : List ℕ → W → Bool × W
  pub make_directories : List ℕ → W → DirectoryCode × W
  pub open_new : List ℕ → W → Bool × W
  pub put_one : List ℕ → ℤ → W → Bool × W
  pub open_old : List ℕ → W → Bool × W
  pub put : List ℕ → List ℕ → ℤ → W → Bool × W
  pub text_of : List ℕ → W → Option (List ℕ)

-- What stands in front of the last slash: find_last_of and substr.
unfoldable pub parent_of : List ℕ → Option (List ℕ)
parent_of [] = none
parent_of (c ∷ path) = elim (parent_of path) [
  | some front ↦ some (c ∷ front)
  | none ↦ if c == b'/' then some [] else none
]

abbrev stream_outcome : Bool → Result Empty IoError
stream_outcome true = ok empty
stream_outcome false = error generic_error

module _ {W : Type 0} (fs : FileSystem W) where
  abbrev existence : Option Bool → Result Bool IoError
  existence none = error generic_error
  existence (some there) = ok there

  unfoldable pub exists : List ℕ → W → Result Bool IoError
  exists filename w = existence (fs.query filename w)

  abbrev put_last : List ℕ → Exec ℤ → W → Exec (Result Empty IoError) × W
  put_last filename (returns place) w =
      let (good, w') = fs.put_one filename place w in (returns (stream_outcome good), w')
  put_last filename (throws x) w = (throws x, w)
  put_last filename undefined w = (undefined, w)
  put_last filename out_of_fuel w = (out_of_fuel, w)

  -- touch with the stream, by whether it is open.
  abbrev touch_opened : List ℕ → ℤ → Bool × W → Exec (Result Empty IoError) × W
  touch_opened filename size (false, w) = (returns (error generic_error), w)
  touch_opened filename size (true, w) =
      if eq_ℤ size (pos 0)
      then (throws invalid_argument, w)
      else put_last filename (sub_int64 size (pos 1)) w

  abbrev touch_absent : List ℕ → ℤ → Result Bool IoError → W → Exec (Result Empty IoError) × W
  touch_absent filename size (error e) w = (returns (error generic_error), w)
  touch_absent filename size (ok true) w = (returns (error file_already_exists), w)
  touch_absent filename size (ok false) w = touch_opened filename size (fs.open_new filename w)

  unfoldable pub touch : List ℕ → ℤ → W → Exec (Result Empty IoError) × W
  unfolding exists
  touch filename size w = touch_absent filename size (exists filename w) w

  unfoldable pub remove : List ℕ → W → Result Empty IoError × W
  remove filename w = let (good, w') = fs.remove_all filename w in (stream_outcome good, w')

  abbrev written_opened : List ℕ → List ℕ → ℤ → Bool × W → Exec (Result Empty IoError) × W
  written_opened filename bytes offset (false, w) = (returns (error generic_error), w)
  written_opened filename bytes offset (true, w) =
      if ltb (2 ^ 63 - 1) (length bytes)
      then (throws invalid_argument, w)
      else let (good, w') = fs.put filename bytes offset w in (returns (stream_outcome good), w')

  unfoldable pub write_bytes : List ℕ → List ℕ → ℤ → W → Exec (Result Empty IoError) × W
  write_bytes filename bytes offset w =
      written_opened filename bytes offset (fs.open_old filename w)

  abbrev made : List ℕ → DirectoryCode × W → Result (List ℕ) IoError × W
  made real_path (no_error, w) = (ok real_path, w)
  made real_path (file_exists, w) = (error directory_already_exists, w)
  made real_path (other_error, w) = (error generic_error, w)

  abbrev create_real : Option (List ℕ) → W → Result (List ℕ) IoError × W
  create_real none w = (error invalid_path, w)
  create_real (some real_path) w = made real_path (fs.make_directories real_path w)

  unfoldable pub create_directories : List ℕ → Bool → W → Result (List ℕ) IoError × W
  unfolding parent_of
  create_directories path skip_last w =
      create_real (if skip_last then parent_of path else some path) w

  abbrev loaded : Option (List ℕ) → Result (List ℕ) IoError
  loaded none = error cannot_open_file
  loaded (some text) = ok text

  unfoldable pub load_file_text : List ℕ → W → Result (List ℕ) IoError
  load_file_text filepath w = loaded (fs.text_of filepath w)
