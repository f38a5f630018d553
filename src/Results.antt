-- ===== src/Results.antt =====
-- src/results.rs: the `HRESULT` values, as 32-bit patterns.
use xgameruntime_rs.Base.{ℕ}

abbrev pub s_ok : ℕ
s_ok = 0

abbrev pub e_pending : ℕ
e_pending = 0x8000000A

abbrev pub e_abort : ℕ
e_abort = 0x80004004

abbrev pub e_pointer : ℕ
e_pointer = 0x80004003

abbrev pub e_invalidarg : ℕ
e_invalidarg = 0x80070057

abbrev pub e_not_sufficient_buffer : ℕ
e_not_sufficient_buffer = 0x8007007A

abbrev pub e_illegal_method_call : ℕ
e_illegal_method_call = 0x8000000E

abbrev pub e_fail : ℕ
e_fail = 0x80004005

abbrev pub e_accessdenied : ℕ
e_accessdenied = 0x80070005

abbrev pub e_notimpl : ℕ
e_notimpl = 0x80004001

abbrev pub e_nointerface : ℕ
e_nointerface = 0x80004002

-- `Result<A, HRESULT>`.
pub data Result (A : Type 0) : Type 0 where
  ok : A → Result A
  err : ℕ → Result A
