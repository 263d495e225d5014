-- ===== src/Net/EaiError.antt =====
-- The error codes of Sources/eai_error_category.cpp. The texts of the system are parameters:
-- `strerror` those of the system's category, and `gai_strerror`, which may give a null pointer.
mod Tests
use kssio.Prelude.{
  Option, none, some, Text, codes, Result, ok, thrown, failed, postconditions, if◌then◌else◌,
}
use kssio.Prelude.Int.{ℤ, negsuc, eqb_ℤ}

pub data ErrorCategory : Type 0 where
  system_category eai_error_category : ErrorCategory

-- `error_code`
pub record ErrorCode : Type 0 where
  pub value : ℤ
  pub category : ErrorCategory

-- EAI_SYSTEM of Linux, -11.
abbrev pub eai_system : ℤ
eai_system = negsuc 10

-- `EaiErrorCategory::name`
eai_name : Text
eai_name = codes "eai"

-- `EaiErrorCategory::message`
eai_message : (ℤ → Option Text) → ℤ → Result Text
eai_message gai_strerror val = elim (gai_strerror val) [
  | none ↦ thrown (failed postconditions)
  | some msg ↦ ok msg
]

-- `eaiErrorCode`, where `errno` is the system's.
eai_error_code : ℤ → ℤ → ErrorCode
eai_error_code errno error =
    if eqb_ℤ error eai_system
    then record { value = errno; category = system_category }
    else record { value = error; category = eai_error_category }

-- `error_code::message`
message : (ℤ → Text) → (ℤ → Option Text) → ErrorCode → Result Text
unfolding eai_message
message strerror gai_strerror ec = elim ec.category [
  | system_category ↦ ok (strerror ec.value)
  | eai_error_category ↦ eai_message gai_strerror ec.value
]
