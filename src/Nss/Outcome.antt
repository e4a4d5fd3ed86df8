-- ===== src/Nss/Outcome.antt =====
-- What a C++ function ends with: a value, or one of the exceptions that the plug-in throws.
pub data Exception : Type 0 where
  length_error : Exception
  invalid_argument : Exception
  out_of_range : Exception
  runtime_error : Exception

pub data Outcome (A : Type 0) : Type 0 where
  done : A → Outcome A
  thrown : Exception → Outcome A
