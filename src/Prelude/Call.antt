-- ===== src/Prelude/Call.antt =====
-- How a call of the program ends, and `util::Result` of util/result.hpp, which most calls return.

-- Result<R, E>, a variant of a result and an error, by its factories `OK` and `ERROR`.
pub data Result {ℓ} (A E : Type ℓ) : Type ℓ where
  ok : A → Result A E
  error : E → Result A E

-- The standard library's exceptions that the program throws or lets through.
pub data Exception : Type 0 where
  invalid_argument out_of_range logic_error bad_cast : Exception

-- A call returns, leaves by an exception, or has undefined behaviour, such as a read behind the
-- end of a container. `out_of_fuel` has no counterpart in the program.
pub data Exec {ℓ} (A : Type ℓ) : Type ℓ where
  returns : A → Exec A
  throws : Exception → Exec A
  undefined out_of_fuel : Exec A

infixl 5 ◌>>=◌
abbrev pub ◌>>=◌ {ℓ κ} : {A : Type ℓ} {B : Type κ} → Exec A → (A → Exec B) → Exec B
returns a >>= f = f a
throws x >>= f = throws x
undefined >>= f = undefined
out_of_fuel >>= f = out_of_fuel

-- `auto r = m; if (!r.valid()) return r;`, and the rest with the value of `r`.
abbrev pub and_then :
    {A B E : Type 0} → Exec (Result A E) → (A → Exec (Result B E)) → Exec (Result B E)
and_then (returns (ok a)) f = f a
and_then (returns (error e)) f = returns (error e)
and_then (throws x) f = throws x
and_then undefined f = undefined
and_then out_of_fuel f = out_of_fuel
