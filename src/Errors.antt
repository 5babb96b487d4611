-- ===== src/Errors.antt =====
-- The members of the wrappers of an operating system's primitives: how they end.
use yamc.Common.{Bool}

-- It returns, `true` if it returns nothing, or throws a `std::system_error`.
pub data Answer (E : Type 0) : Type 0 where
  done : Bool → Answer E
  thrown : E → Answer E

-- The `std::errc` of the errors that a wrapper detects itself.
pub data Errc : Type 0 where
  invalid_argument resource_unavailable_try_again : Errc
