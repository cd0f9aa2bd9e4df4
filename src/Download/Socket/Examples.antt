-- ===== src/Download/Socket/Examples.antt =====
-- src/download/socket.cpp with a runtime that never completes an operation.
use furrent.Prelude.{◌≡◌, refl, [], ◌∷◌, Bool, true, false, error, returns}
use furrent.Prelude.Int.{ℤ, pos}
use furrent.Download.Socket.{
  Asio, ErrorCode, timeout, connect, write, read, run, read_of, outcome_of,
}

-- The state is whether the socket is open; closing aborts what is scheduled.
abbrev code_of : Bool → ErrorCode
code_of true = ErrorCode.no_error
code_of false = ErrorCode.operation_aborted

abbrev never : Asio Bool
never = record {
  is_open = λ w. w;
  async_connect = λ ip port w. true;
  async_write = λ bytes w. w;
  async_read = λ n w. w;
  restart = λ w. w;
  run_for = λ t w. w;
  stopped = λ w. false;
  run_all = λ w. w;
  shutdown = λ w. w;
  close = λ w. (false, false);
  ec = code_of;
  arrived = λ w. [];
}

abbrev second : ℤ
second = pos 1000000000

-- A connect, a write and a read whose time is over leave the socket closed.
late :
    (connect never 0 0 second true ≡ (error timeout, false))
    × (write never (1 ∷ []) second true ≡ (error timeout, false))
    × (read never (pos 4) second true ≡ (returns (error timeout), false))
unfolding connect write read run read_of outcome_of
late = (refl, refl, refl)
