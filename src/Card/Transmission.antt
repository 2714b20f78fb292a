-- ===== src/Card/Transmission.antt =====
-- card/base/command/TransmitCommand.cpp and DidAuthenticateEAC1Command.cpp, and
-- card/base/InputAPDUInfo.h: commands that a server sends through the app to the card. A command's
-- members are its results: the return code, and the answers so far as text.
pub mod Exchange
use ausweis_app.Prelude.{
  ℕ, ◌+◌, ◌/◌, ◌%◌, Bool, true, false, not, ◌&&◌, ◌||◌, List, [], ◌∷◌, ◌++◌, if◌then◌else◌,
  is_empty, ◌==◌, ltb,
}
use ausweis_app.Bytes.{Bytes}
use ausweis_app.Card.ReturnCode.{CardReturnCode}
use ausweis_app.Card.ResponseApdu.StatusCode
use ausweis_app.Card.ResponseApdu.{get_return_code, return_code_length, right, get_data}
use ausweis_app.Card.Crypto.{Crypto}
use ausweis_app.Card.Commands.{get_challenge}
use ausweis_app.Card.Connection.{ResponseApduResult, CardConnectionWorker, is_ok, transmit}

pub record InputApduInfo : Type 0 where
  pub input_apdu : Bytes
  pub acceptable_status_codes : List Bytes

-- The characters of `toHex()`, as their codes.
unfoldable pub hex_digit : ℕ → ℕ
hex_digit value = if ltb value 10 then 48 + value else 87 + value

unfoldable pub to_hex : Bytes → Bytes
unfolding hex_digit
to_hex [] = []
to_hex (x ∷ xs) = hex_digit (x / 16) ∷ hex_digit (x % 16) ∷ to_hex xs

unfoldable pub get_return_code_as_hex : Bytes → Bytes
unfolding to_hex
get_return_code_as_hex buffer = to_hex (right return_code_length buffer)

-- `text.startsWith(start)`, the start first.
unfoldable pub starts_with : Bytes → Bytes → Bool
starts_with [] text = true
starts_with (x ∷ xs) [] = false
starts_with (x ∷ xs) (y ∷ ys) = (x == y) && starts_with xs ys

-- The loop over the acceptable status codes.
unfoldable pub any_start : List Bytes → Bytes → Bool
unfolding starts_with
any_start [] code = false
any_start (start ∷ starts) code = starts_with start code || any_start starts code

unfoldable pub is_acceptable : InputApduInfo → Bytes → Bool
unfolding any_start get_return_code_as_hex
is_acceptable info response =
    is_empty info.acceptable_status_codes
    || any_start info.acceptable_status_codes (get_return_code_as_hex response)

module _ {C : Type 0} (k : Crypto) (send : C → Bytes → ResponseApduResult × C) where
  -- What follows an answer, with the rest of the loop.
  unfoldable pub after_answer :
      (CardConnectionWorker C → List Bytes → CardReturnCode × List Bytes × CardConnectionWorker C)
      → InputApduInfo
      → ResponseApduResult
      → CardConnectionWorker C
      → List Bytes
      → CardReturnCode × List Bytes × CardConnectionWorker C
  unfolding is_acceptable
  after_answer again info result worker output =
      let longer = output ++ (to_hex result.response ∷ []) in
      if not (is_ok result.return_code)
      then (result.return_code, output, worker)
      else elim (is_acceptable info result.response) [
        | true ↦ again worker longer
        | false ↦ (CardReturnCode.unexpected_transmit_status, longer, worker)
      ]

  -- `TransmitCommand::internalExecute`, with the answers so far.
  unfoldable pub transmit_all :
      List InputApduInfo
      → CardConnectionWorker C
      → List Bytes
      → CardReturnCode × List Bytes × CardConnectionWorker C
  transmit_all [] worker output = (CardReturnCode.ok, output, worker)
  transmit_all (info ∷ infos) worker output =
      let (result, worker') = transmit k send worker info.input_apdu in
      after_answer (transmit_all infos) info result worker' output

  -- `DidAuthenticateEAC1Command::internalExecute`: a challenge of a wrong size is only logged.
  unfoldable pub did_authenticate_eac1 :
      CardConnectionWorker C → CardReturnCode × Bytes × CardConnectionWorker C
  did_authenticate_eac1 worker =
      let (result, worker') = transmit k send worker get_challenge in
      if not (is_ok result.return_code)
        || not (get_return_code result.response == StatusCode.success)
      then (result.return_code, [], worker')
      else (result.return_code, get_data result.response, worker')
