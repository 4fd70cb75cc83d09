-- ===== src/Engine/Outcomes.antt =====
-- socket/external/engine/utils/result: `util::Result`.
use unix_ipc.Prelude.{Bool, true, false}
use unix_ipc.Sys.{failed_assert, Prog, pure, fault}

-- The variant of a value and an error.
pub data Result (T E : Type 0) : Type 0 where
  of_value : T → Result T E
  of_error : E → Result T E

module _ {T E : Type 0} where
  unfoldable pub is_ok : Result T E → Bool
  is_ok (of_value v) = true
  is_ok (of_error e) = false

  unfoldable pub is_error : Result T E → Bool
  is_error (of_value v) = false
  is_error (of_error e) = true

  -- The accessors assert that the alternative is the held one.
  unfoldable pub value : Result T E → Prog T
  value (of_value v) = pure v
  value (of_error e) = fault failed_assert

  unfoldable pub error : Result T E → Prog E
  error (of_value v) = fault failed_assert
  error (of_error e) = pure e
