-- ===== src/Exception.antt =====
-- include/pcp-cpp/exception.hpp, and the results of code that may throw.
use pcp_pmda_cpp.Base.{Bool, Text, Option, none, some, is_empty, if◌then◌else◌}
use pcp_pmda_cpp.Base.Int.{ℤ}
use pcp_pmda_cpp.Pcp.{Pmapi}

-- pcp::exception.
pub record PcpException : Type 0 where
  pub pm_error_code : ℤ
  pub message : Text

-- The constructor: an empty message stands for the one that libpcp has for the code.
unfoldable pub exception : Pmapi → ℤ → Text → PcpException
exception api code message = record {
  pm_error_code = code;
  message = if is_empty message then api.err_str code else message;
}

-- What a handler sees: the library's own exceptions, std::out_of_range, any other
-- std::exception with its `what()`, and anything else.
pub data Thrown : Type 0 where
  pcp : PcpException → Thrown
  out_of_range : Thrown
  std : Text → Thrown
  unknown : Thrown

-- Either a value or what was thrown instead of it.
pub data Result {ℓ} (A : Type ℓ) : Type ℓ where
  ok : A → Result A
  err : Thrown → Result A

-- std::map::at, std::vector::at.
abbrev pub or_out_of_range {ℓ} : {A : Type ℓ} → Option A → Result A
or_out_of_range none = err out_of_range
or_out_of_range (some found) = ok found

infixl 5 ◌>>=◌
abbrev pub ◌>>=◌ {ℓ κ} : {A : Type ℓ} {B : Type κ} → Result A → (A → Result B) → Result B
err thrown >>= next = err thrown
ok value >>= next = next value

infixl 5 ◌>>◌
abbrev pub ◌>>◌ {ℓ} : {B : Type ℓ} → Result (Unit {0}) → Result B → Result B
first >> next = first >>= λ done. next

-- `throw pcp::exception(code, message)` where `c` holds.
abbrev pub throw_if : Pmapi → Bool → ℤ → Text → Result (Unit {0})
throw_if api c code message = if c then err (pcp (exception api code message)) else ok tt
