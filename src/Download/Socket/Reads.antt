-- ===== src/Download/Socket/Reads.antt =====
-- src/download/socket.cpp: what a read of the socket answers, whatever the runtime does.
use furrent.Prelude.{
  ℕ, ◌≡◌, refl, ap, ◌⊎◌, inl, inr, List, ◌++◌, length, replicate, length-take, length-append,
  length-replicate, ok, error, returns, arith,
}
use furrent.Prelude.Int.{ℤ, pos}
use furrent.Download.Socket.{
  SocketError, timeout, other, ErrorCode, Asio, run, read, read_of, filled,
}

length-filled : (n : ℕ) (bytes : List ℕ) → length (filled n bytes) ≡ n
unfolding filled
length-filled n bytes = omega (
  arith,
  length-take n (bytes ++ replicate n 0),
  length-append bytes (replicate n 0),
  length-replicate {A = ℕ} n 0,
)

read_of-cases :
    (n : ℕ) (code : ErrorCode) (bytes : List ℕ)
    → ((buf : List ℕ) × (read_of code (filled n bytes) ≡ ok buf)
        × (length buf ≡ n)
        × (code ≡ ErrorCode.no_error))
      ⊎ ((err : SocketError) × (read_of code (filled n bytes) ≡ error err))
unfolding read_of
read_of-cases n ErrorCode.no_error bytes = inl (filled n bytes, refl, length-filled n bytes, refl)
read_of-cases n ErrorCode.operation_aborted bytes = inr (timeout, refl)
read_of-cases n ErrorCode.other_error bytes = inr (other, refl)

module _ {W : Type 0} (asio : Asio W) where
  -- A read of n bytes returns: either exactly n bytes, and then without an error code, or an error.
  pub read-returns :
      (n : ℕ) (t : ℤ) (w : W)
      → ((buf : List ℕ) × ((read asio (pos n) t w).0 ≡ returns (ok buf))
          × (length buf ≡ n)
          × (asio.ec (read asio (pos n) t w).1 ≡ ErrorCode.no_error))
        ⊎ ((err : SocketError) × ((read asio (pos n) t w).0 ≡ returns (error err)))
  unfolding read
  read-returns n t w =
      elim (read_of-cases n (asio.ec (run asio t (asio.async_read n w)))
        (asio.arrived (run asio t (asio.async_read n w)))) [
          | inl (buf, e, l, c) ↦ inl (buf, ap returns e, l, c)
          | inr (err, e) ↦ inr (err, ap returns e)
        ]
