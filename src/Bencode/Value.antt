-- ===== src/Bencode/Value.antt =====
-- src/bencode/bencode_value.hpp and bencode_value.cpp. A subclass of BencodeValue is a constructor. A
-- string is a list of bytes, numbers below 256; the std::map of a dictionary is its entries in the
-- order of their keys, which are compared byte by byte.
use furrent.Prelude.{ℕ, zero, suc, ◌+◌, ◌/◌, ◌%◌, ltb, List, [], ◌∷◌, ◌++◌, true, false, length}
use furrent.Prelude.Int.{ℤ, pos, negsuc}

mutual
  pub data BencodeValue : Type 0 where
    integer : ℤ → BencodeValue
    string : List ℕ → BencodeValue
    list : Items → BencodeValue
    dict : Entries → BencodeValue

  -- std::vector of values
  pub data Items : Type 0 where
    nil : Items
    cons : BencodeValue → Items → Items

  -- std::map from strings to values
  pub data Entries : Type 0 where
    end : Entries
    entry : List ℕ → BencodeValue → Entries → Entries

pub data BencodeType : Type 0 where
  integer string list dict : BencodeType

unfoldable pub get_type : BencodeValue → BencodeType
get_type (integer n) = BencodeType.integer
get_type (string s) = BencodeType.string
get_type (list xs) = BencodeType.list
get_type (dict es) = BencodeType.dict

-- std::to_string of a number: its decimal digits. The fuel is the number, and a tenth of it is less.
unfoldable pub decimal_from : ℕ → ℕ → List ℕ
decimal_from zero n = (b'0' + n) ∷ []
decimal_from (suc fuel) n = elim (ltb n 10) [
  | true ↦ (b'0' + n) ∷ []
  | false ↦ decimal_from fuel (n / 10) ++ (b'0' + n % 10) ∷ []
]

unfoldable pub decimal : ℕ → List ℕ
decimal n = decimal_from n n

-- std::to_string of an int64_t.
unfoldable pub decimal_ℤ : ℤ → List ℕ
decimal_ℤ (pos n) = decimal n
decimal_ℤ (negsuc n) = b'-' ∷ decimal (suc n)

-- `std::to_string(key.size()) + ":" + key`
unfoldable pub string_text : List ℕ → List ℕ
string_text s = decimal (length s) ++ (b':' ∷ s)

unfoldable mutual
  pub to_string : BencodeValue → List ℕ
  to_string (integer n) = b'i' ∷ (decimal_ℤ n ++ b'e' ∷ [])
  to_string (string s) = string_text s
  to_string (list xs) = b'l' ∷ (items_text xs ++ b'e' ∷ [])
  to_string (dict es) = b'd' ∷ (entries_text es ++ b'e' ∷ [])

  -- The loop of BencodeList::to_string.
  pub items_text : Items → List ℕ
  items_text nil = []
  items_text (cons v xs) = to_string v ++ items_text xs

  -- The loop of BencodeDict::to_string.
  pub entries_text : Entries → List ℕ
  entries_text end = []
  entries_text (entry key v es) = string_text key ++ (to_string v ++ entries_text es)
