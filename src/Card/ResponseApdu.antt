-- ===== src/Card/ResponseApdu.antt =====
-- card/base/ResponseApdu.cpp: the response APDU. A status code is its number, since two of the
-- source's names share one value; the retry counter -1 is `none`.
pub mod StatusCode
pub mod Reading
use ausweis_app.Prelude.{
  ℕ, ◌+◌, ◌-◌, ◌*◌, ◌/◌, ◌%◌, ◌<◌, ◌≡◌, refl, Bool, true, false, Option, none, some, List, [], ◌∷◌,
  ◌++◌, arith, ltb, ◌==◌, if◌then◌else◌, length, take, drop, is_empty,
}
use mathlib.Core.Bool.{◌||◌}
use ausweis_app.Bytes.{Bytes, at}
use ausweis_app.Card.ReturnCode.{CardReturnCode}

-- The values of `StatusCode`, in the order of the source.
unfoldable pub status_codes : List ℕ
status_codes =
    0x0000 ∷ 0x0001 ∷ 0x9000 ∷ 0x6200 ∷ 0x6282 ∷ 0x6283 ∷ 0x6284 ∷ 0x6300 ∷ 0x6400 ∷ 0x6401 ∷ 0x6402
    ∷ 0x6403 ∷ 0x64a2 ∷ 0x6581 ∷ 0x6600 ∷ 0x6700 ∷ 0x6981 ∷ 0x6883 ∷ 0x6982 ∷ 0x6983 ∷ 0x6984
    ∷ 0x6985 ∷ 0x6985 ∷ 0x6986 ∷ 0x6987 ∷ 0x6988 ∷ 0x69f0 ∷ 0x6a80 ∷ 0x6a81 ∷ 0x6a82 ∷ 0x6a83
    ∷ 0x6a86 ∷ 0x6a87 ∷ 0x6a88 ∷ 0x6b00 ∷ 0x6e00 ∷ 0x6410 ∷ 0x6a00 ∷ 0x6d00 ∷ 0x63c0 ∷ 0x63c1
    ∷ 0x63c2 ∷ []

-- The values of `SW1`.
unfoldable pub sw1_values : List ℕ
sw1_values =
    0x00 ∷ 0x61 ∷ 0x62 ∷ 0x63 ∷ 0x64 ∷ 0x65 ∷ 0x66 ∷ 0x67 ∷ 0x68 ∷ 0x69 ∷ 0x6a ∷ 0x6b ∷ 0x6c ∷ 0x6d
    ∷ 0x6e ∷ 0x6f ∷ 0x90 ∷ []

-- `Enum<T>::isValue`
unfoldable pub is_value : List ℕ → ℕ → Bool
is_value [] n = false
is_value (v ∷ vs) n = v == n || is_value vs n

abbrev pub return_code_length : ℕ
return_code_length = 2

-- The constructor from a status code: its two bytes, the high one first.
unfoldable pub of_status_code : ℕ → Bytes
of_status_code code = code / 256 % 256 ∷ code % 256 ∷ []

unfoldable pub get_data : Bytes → Bytes
get_data buffer =
    if ltb (length buffer) return_code_length
    then []
    else take (length buffer - return_code_length) buffer

-- `right(n)`
abbrev pub right : ℕ → Bytes → Bytes
right n bytes = drop (length bytes - n) bytes

-- `toHex().toInt(nullptr, 16)`: the number that the bytes spell.
unfoldable pub hex_value_from : ℕ → Bytes → ℕ
hex_value_from acc [] = acc
hex_value_from acc (x ∷ xs) = hex_value_from (acc * 256 + x) xs

unfoldable pub get_return_code : Bytes → ℕ
unfolding hex_value_from
get_return_code buffer =
    if is_empty buffer
    then StatusCode.empty
    else (let code = hex_value_from 0 (right return_code_length buffer) in
        if is_value status_codes code then code else StatusCode.invalid)

unfoldable pub get_retry_counter : Bytes → Option ℕ
get_retry_counter buffer =
    let code = get_return_code buffer in
    if code == StatusCode.success
    then some 3
    else if code == StatusCode.pin_retry_count_2
    then some 2
    else if code == StatusCode.pin_suspended
    then some 1
    else if code == StatusCode.pin_blocked || code == StatusCode.pin_deactivated
    then some 0
    else none

-- 0x00 is `SW1::INVALID`.
unfoldable pub get_sw1 : Bytes → ℕ
get_sw1 buffer =
    if ltb (length buffer) return_code_length
    then 0x00
    else (let value = at buffer (length buffer - return_code_length) in
        if is_value sw1_values value then value else 0x00)

unfoldable pub get_sw2 : Bytes → ℕ
get_sw2 buffer = if ltb (length buffer) 1 then 0 else at buffer (length buffer - 1)

unfoldable pub card_return_code_of : ℕ → CardReturnCode
card_return_code_of code =
    if code == StatusCode.success
    then CardReturnCode.ok
    else if code == StatusCode.input_timeout
    then CardReturnCode.input_time_out
    else if code == StatusCode.input_cancelled
    then CardReturnCode.cancellation_by_user
    else if code == StatusCode.passwords_differ
    then CardReturnCode.new_pin_mismatch
    else if code == StatusCode.password_outof_range
    then CardReturnCode.new_pin_invalid_length
    else if code == StatusCode.pin_blocked
    then CardReturnCode.pin_blocked
    else CardReturnCode.protocol_error

unfoldable pub get_card_return_code : Bytes → CardReturnCode
unfolding card_return_code_of
get_card_return_code buffer = card_return_code_of (get_return_code buffer)
