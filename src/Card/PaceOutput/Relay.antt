-- ===== src/Card/PaceOutput/Relay.antt =====
-- EstablishPaceChannelOutput.cpp: `generateReturnCode` on one side and `parseReturnCode` on the
-- other, and which codes `parseReturnCode` takes for a success or a wrong password.
use ausweis_app.Prelude.{ℕ, ◌/◌, ◌%◌, ◌≤◌, ◌<◌, ◌≡◌, ◌↔◌, refl, true, arith}
use ausweis_app.Card.ReturnCode.{
  CardReturnCode, to_global_status, is_no_error, equals_wrong_pace_password,
}
use ausweis_app.Card.PaceOutput.ErrorCode.{
  ErrorCode, error_value, parse_return_code, generate_return_code,
}

-- The code that arrives when `code` is sent.
unfoldable pub relayed : CardReturnCode → CardReturnCode
unfolding parse_return_code error_value generate_return_code
relayed code = parse_return_code (error_value (generate_return_code code))

pub error_value-lt : (code : ErrorCode) → error_value code < 4294967296
unfolding error_value
error_value-lt ErrorCode.no_error = omega arith
error_value-lt _ = omega arith

-- parseReturnCode reports a success for the error code 0 alone.
pub parse_return_code-ok_iff : (n : ℕ) → (parse_return_code n ≡ CardReturnCode.ok) ↔ (n ≡ 0)
unfolding parse_return_code
parse_return_code-ok_iff n = (λ h. ground arith, λ h. rw h)

-- parseReturnCode reports a wrong password exactly for warnings of the four General
-- Authenticate steps.
pub parse_return_code-invalid_password_iff :
    (n : ℕ)
    → (parse_return_code n ≡ CardReturnCode.invalid_password)
      ↔ ((0xf003 ≤ n / 65536) × (n / 65536 ≤ 0xf006) × (n / 256 % 256 ≡ 0x63))
unfolding parse_return_code
parse_return_code-invalid_password_iff n =
    ((λ h. (ground arith, ground arith, ground arith)), λ h. ground arith)

-- A card return code that is sent as a PACE error code and read again is a success exactly if
-- it was one, becomes a wrong password only if it was one, and is stable under sending it
-- again.
pub relayed_code :
    (code : CardReturnCode)
    → (relayed code ≡ CardReturnCode.ok → is_no_error (to_global_status code) ≡ true)
      × (is_no_error (to_global_status code) ≡ true → relayed code ≡ CardReturnCode.ok)
      × (equals_wrong_pace_password (relayed code) ≡ true → equals_wrong_pace_password code ≡ true)
      × (relayed (relayed code) ≡ relayed code)
unfolding relayed to_global_status is_no_error equals_wrong_pace_password
relayed_code CardReturnCode.ok = (λ h. refl, λ h. refl, λ h. h, refl)
relayed_code _ = (λ h. ground arith, λ h. ground arith, λ h. ground arith, refl)
