-- ===== src/Platform/Examples.antt =====
-- src/platform/io.cpp at work: paths, and a file without bytes on a disk that counts its new files.
use furrent.Prelude.{ℕ, ◌+◌, ◌≡◌, refl, [], ◌∷◌, true, false, none, some, throws, invalid_argument}
use furrent.Prelude.Int.{pos}
use furrent.Platform.{FileSystem, no_error, parent_of, exists, touch}

parent_of-nested :
    parent_of (b'a' ∷ b'/' ∷ b'b' ∷ b'/' ∷ b'c' ∷ []) ≡ some (b'a' ∷ b'/' ∷ b'b' ∷ [])
unfolding parent_of
parent_of-nested = refl

parent_of-plain : parent_of (b'a' ∷ []) ≡ none
unfolding parent_of
parent_of-plain = refl

abbrev disk : FileSystem ℕ
disk = record {
  query = λ path w. some false;
  remove_all = λ path w. (true, w);
  make_directories = λ path w. (no_error, w);
  open_new = λ path w. (true, w + 1);
  put_one = λ path place w. (true, w);
  open_old = λ path w. (true, w);
  put = λ path bytes place w. (true, w);
  text_of = λ path w. none;
}

abbrev start_count : ℕ
start_count = 0

-- The file is created, and then its size refused.
touch-empty : touch disk (b'a' ∷ []) (pos 0) start_count ≡ (throws invalid_argument, 1)
unfolding touch exists
touch-empty = refl
