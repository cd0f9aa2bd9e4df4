-- ===== src/Download/Downloader/Calls.antt =====
-- src/download/downloader.hpp: the errors of a Downloader, and its methods as functions of the object.
pub mod Post
pub mod Finish
use furrent.Prelude.{List, Result, ok, error, Exec, returns, throws, undefined, out_of_fuel}
use furrent.Download.Socket.{SocketError, timeout, other, Empty, empty}

pub data DownloaderError : Type 0 where
  different_info_hash invalid_message no_bitfield missing_piece corrupt_piece : DownloaderError
  socket_timeout socket_other : DownloaderError

unfoldable pub from_socket_error : SocketError → DownloaderError
from_socket_error timeout = socket_timeout
from_socket_error other = socket_other

-- A method of an object D: how its call ends, and the object then. Where the call leaves by an
-- exception, the object keeps what was done to it.
abbrev pub Method : Type 0 → Type 0 → Type 0
Method D A = D → Exec (Result A DownloaderError) × D

-- What is behind a call, which a caller goes on to only when the call was valid: every caller passes
-- the error of a call on, `if (!r.valid()) return ERROR(r.error())`.
abbrev pub proceed :
    {D A B : Type 0}
    → Exec (Result A DownloaderError) × D
    → (A → Method D B)
    → Exec (Result B DownloaderError) × D
proceed (returns (ok a), s) f = f a s
proceed (returns (error e), s) f = (returns (error e), s)
proceed (throws x, s) f = (throws x, s)
proceed (undefined, s) f = (undefined, s)
proceed (out_of_fuel, s) f = (out_of_fuel, s)

infixl 5 ◌>>=◌
abbrev pub ◌>>=◌ : {D A B : Type 0} → Method D A → (A → Method D B) → Method D B
m >>= f = λ s. proceed (m s) f

abbrev pub done : {D A : Type 0} → A → Method D A
done a = λ s. (returns (ok a), s)

abbrev pub refuse : {D A : Type 0} → DownloaderError → Method D A
refuse e = λ s. (returns (error e), s)

abbrev pub modify : {D : Type 0} → (D → D) → Method D Empty
modify f = λ s. (returns (ok empty), f s)

-- A call that is not a method of the object.
abbrev pub lift : {D A : Type 0} → Exec A → Method D A
lift (returns a) = λ s. (returns (ok a), s)
lift (throws x) = λ s. (throws x, s)
lift undefined = λ s. (undefined, s)
lift out_of_fuel = λ s. (out_of_fuel, s)
