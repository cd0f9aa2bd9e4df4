-- ===== src/Download/Socket.antt =====
-- src/download/socket.hpp and socket.cpp: a socket whose calls block until they complete or a timeout
-- expires. The runtime `AsioEngine` is third-party: its calls are the parameter `asio`, over a state W
-- of the engine and of what it is connected to. A time is a number of nanoseconds.
pub mod Reads
mod Examples
use furrent.Prelude.{
  ℕ, ◌*◌, ◌^◌, ◌-◌, List, ◌++◌, Bool, if◌then◌else◌, length, take, drop, replicate, Result, ok,
  error, Exec, returns, throws, invalid_argument, ◌>>=◌,
}
use furrent.Prelude.Int.{ℤ, pos, negsuc}

pub data SocketError : Type 0 where
  timeout other : SocketError

-- util/result.hpp's value of a call that returns nothing.
pub data Empty : Type 0 where
  empty : Empty

-- std::error_code, by what the program tells apart.
pub data ErrorCode : Type 0 where
  no_error operation_aborted other_error : ErrorCode

-- Asio's calls. `ec` is what the callback of the operation that was scheduled last has written, and
-- no_error before it is called; `arrived` is what that operation has read. `close` answers whether
-- it threw; `shutdown` may throw, which the program ignores.
pub record Asio (W : Type 0) : Type 0 where
  pub is_open : W → Bool
  pub async_connect : ℕ → ℕ → W → W
  pub async_write : List ℕ → W → W
  pub async_read : ℕ → W → W
  pub restart : W → W
  pub run_for : ℤ → W → W
  pub stopped : W → Bool
  pub run_all : W → W
  pub shutdown : W → W
  pub close : W → Bool × W
  pub ec : W → ErrorCode
  pub arrived : W → List ℕ

-- The two switches on the error code of connect and of write.
unfoldable pub outcome_of : ErrorCode → Result Empty SocketError
outcome_of ErrorCode.no_error = ok empty
outcome_of ErrorCode.operation_aborted = error timeout
outcome_of ErrorCode.other_error = error other

-- The switch of read, with the buffer.
unfoldable pub read_of : ErrorCode → List ℕ → Result (List ℕ) SocketError
read_of ErrorCode.no_error buf = ok buf
read_of ErrorCode.operation_aborted buf = error timeout
read_of ErrorCode.other_error buf = error other

-- A buffer of n zeros, with the bytes that arrived in front.
unfoldable pub filled : ℕ → List ℕ → List ℕ
filled n bytes = take n (bytes ++ replicate n 0)

module _ {W : Type 0} (asio : Asio W) where
  unfoldable pub run : ℤ → W → W
  run limit w =
      let ran = asio.run_for limit (asio.restart w) in
      if asio.stopped ran then ran else asio.run_all (asio.close (asio.shutdown ran)).1

  unfoldable pub connect : ℕ → ℕ → ℤ → W → Result Empty SocketError × W
  unfolding outcome_of run
  connect ip port limit w =
      let ran = run limit (asio.async_connect ip port w) in (outcome_of (asio.ec ran), ran)

  unfoldable pub write : List ℕ → ℤ → W → Result Empty SocketError × W
  unfolding outcome_of run
  write buf limit w =
      let ran = run limit (asio.async_write buf w) in (outcome_of (asio.ec ran), ran)

  unfoldable pub read : ℤ → ℤ → W → Exec (Result (List ℕ) SocketError) × W
  unfolding read_of filled run
  read (negsuc n) limit w = (throws invalid_argument, w)
  read (pos n) limit w =
      let ran = run limit (asio.async_read n w) in
      (returns (read_of (asio.ec ran) (filled n (asio.arrived ran))), ran)

  -- Socket::close
  unfoldable pub close_socket : W → Result Empty SocketError × W
  close_socket w =
      let closed = asio.close (asio.shutdown w) in
      if closed.0 then (error other, closed.1) else (ok empty, asio.run_all closed.1)
