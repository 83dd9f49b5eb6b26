-- ===== src/Domain/Result.antt =====
-- result.h: the result of an operation, with a detail for the client.
use mentor_pi_ros.Prelude.{ℕ, Bool, true, false}

pub data ResultCode : Type 0 where
  ok invalid_argument out_of_range busy timeout io_error unsupported partial : ResultCode

pub record Result : Type 0 where
  pub code : ResultCode
  pub detail : ℕ

abbrev pub is_ok_code : ResultCode → Bool
is_ok_code ok = true
is_ok_code _ = false

-- `Result::ok`.
abbrev pub is_ok : Result → Bool
is_ok r = is_ok_code r.code

abbrev pub ok_result : Result
ok_result = record { code = ok; detail = 0 }

abbrev pub failure : ResultCode → ℕ → Result
failure code detail = record { code = code; detail = detail }
