-- ===== src/Card/Examples.antt =====
-- The theorems on card/base at concrete inputs, and runs of the code.
use ausweis_app.Prelude.{
  ℕ, ◌≡◌, ◌↔◌, ◌⊎◌, ◌<◌, ◌≤◌, ◌/◌, ◌%◌, refl, true, some, [], ◌∷◌, arith, length,
}
use ausweis_app.Bytes.{Bytes}
use ausweis_app.Card.ReturnCode.{
  CardReturnCode, to_global_status, is_no_error, equals_wrong_pace_password,
}
use ausweis_app.Card.PasswordId.{PacePasswordId}
use ausweis_app.Card.CommandApdu
use ausweis_app.Card.CommandApdu.RoundTrip.{read-build, get_le-build_lost, build-eq-nil_iff}
use ausweis_app.Card.ResponseApdu
use ausweis_app.Card.ResponseApdu.Reading.{
  read-response, get_card_return_code-ok_iff, get_retry_counter-pin_status,
}
use ausweis_app.Card.LengthValue.{write_byte_array}
use ausweis_app.Card.PaceInput.{EstablishPaceChannel, from_input_data, create_input_data}
use ausweis_app.Card.PaceInput.RoundTrip.{from_input_data-create_input_data}
use ausweis_app.Card.PaceOutput.{
  EstablishPaceChannelOutput, init, parse, parse_output_data, to_output_data,
}
use ausweis_app.Card.PaceOutput.ErrorCode.{parse_return_code}
use ausweis_app.Card.PaceOutput.Relay.{
  relayed, relayed_code, parse_return_code-ok_iff, parse_return_code-invalid_password_iff,
}
use ausweis_app.Card.PaceOutput.RoundTrip.{
  IsEncodable, parse_output_data-to_output_data, parse-control_output, control_output,
}

-- MSE: a short command with three bytes of data and an expected length.
short_command :
    CommandApdu.build 0x00 0x22 0xc1 0xa4 (1 ∷ 2 ∷ 3 ∷ []) 256
    ≡ 0x00 ∷ 0x22 ∷ 0xc1 ∷ 0xa4 ∷ 3 ∷ 1 ∷ 2 ∷ 3 ∷ 0 ∷ []
unfolding CommandApdu.build
short_command = refl

extended_command : CommandApdu.build 0x00 0xb0 0 0 [] 65536 ≡ 0x00 ∷ 0xb0 ∷ 0 ∷ 0 ∷ 0 ∷ 0 ∷ 0 ∷ []
unfolding CommandApdu.build
extended_command = refl

read-build_example :
    let buffer = CommandApdu.build 0x00 0x22 0xc1 0xa4 (1 ∷ 2 ∷ 3 ∷ []) 256 in
    (CommandApdu.get_cla buffer ≡ 0x00)
    × (CommandApdu.get_ins buffer ≡ 0x22)
    × (CommandApdu.get_p1 buffer ≡ 0xc1)
    × (CommandApdu.get_p2 buffer ≡ 0xa4)
    × (CommandApdu.get_data buffer ≡ 1 ∷ 2 ∷ 3 ∷ [])
    × (CommandApdu.get_le buffer ≡ 256)
read-build_example =
    read-build 0x00 0x22 0xc1 0xa4 256 (1 ∷ 2 ∷ 3 ∷ []) (omega arith) (omega arith) tt

get_le-build_lost_example :
    let buffer = CommandApdu.build 0x00 0xb0 0 0 [] 512 in
    (length buffer ≡ 7) × (CommandApdu.get_lc buffer ≡ 512) × (CommandApdu.get_le buffer ≡ 0)
get_le-build_lost_example = get_le-build_lost 0x00 0xb0 0 0 512 (omega arith) (omega arith)

build-eq-nil_iff_example :
    (CommandApdu.build 0x00 0xb0 0 0 [] 65537 ≡ [])
    ↔ ((CommandApdu.extended_max_lc < 0) ⊎ (CommandApdu.extended_max_le < 65537))
build-eq-nil_iff_example = build-eq-nil_iff 0x00 0xb0 0 0 65537 []

read-response_example :
    let buffer : Bytes = 1 ∷ 2 ∷ 0x63 ∷ 0xc2 ∷ [] in
    (ResponseApdu.get_data buffer ≡ 1 ∷ 2 ∷ [])
    × (ResponseApdu.get_return_code buffer ≡ 0x63c2)
    × (ResponseApdu.get_sw1 buffer ≡ 0x63)
    × (ResponseApdu.get_sw2 buffer ≡ 0xc2)
unfolding ResponseApdu.is_value ResponseApdu.status_codes ResponseApdu.sw1_values
read-response_example = read-response (1 ∷ 2 ∷ []) 0x63 0xc2

get_card_return_code-ok_iff_example :
    (ResponseApdu.get_card_return_code (7 ∷ 0x63 ∷ 0xc0 ∷ []) ≡ CardReturnCode.ok)
    ↔ ((◌≡◌ {A = ℕ} 0x63 0x90) × (◌≡◌ {A = ℕ} 0xc0 0x00))
get_card_return_code-ok_iff_example =
    get_card_return_code-ok_iff (7 ∷ []) 0x63 0xc0 (omega arith) (omega arith)

get_retry_counter-pin_status_example : ResponseApdu.get_retry_counter (0x63 ∷ 0xc1 ∷ []) ≡ some 1
get_retry_counter-pin_status_example = get_retry_counter-pin_status [] 1 (omega arith)

abbrev pin_channel : EstablishPaceChannel
pin_channel = record {
  password_id = PacePasswordId.pace_pin;
  chat = 0x7f ∷ 0x4c ∷ [];
  certificate_description = 0x30 ∷ 0x01 ∷ 0x02 ∷ [];
  password = 0x31 ∷ 0x32 ∷ 0x33 ∷ [];
}

abbrev empty_channel : EstablishPaceChannel
empty_channel = record {
  password_id = PacePasswordId.unknown;
  chat = [];
  certificate_description = [];
  password = [];
}

pin_channel_input :
    create_input_data pin_channel
    ≡ 3 ∷ 2 ∷ 0x7f ∷ 0x4c ∷ 3 ∷ 0x31 ∷ 0x32 ∷ 0x33 ∷ 3 ∷ 0 ∷ 0x30 ∷ 0x01 ∷ 0x02 ∷ []
unfolding create_input_data
pin_channel_input = refl

from_input_data-create_input_data_example :
    from_input_data empty_channel (create_input_data pin_channel)
    ≡ (true, record pin_channel { password = [] })
from_input_data-create_input_data_example =
    from_input_data-create_input_data pin_channel empty_channel (omega arith) (omega arith)
      (omega arith)

-- Only a current reference: the previous one and the IdICC are left out.
abbrev first_output : EstablishPaceChannelOutput
first_output = record {
  pace_return_code = CardReturnCode.invalid_pin_2;
  status_mse_set_at = 0x90 ∷ 0x00 ∷ [];
  ef_card_access = 0x31 ∷ 0x00 ∷ [];
  id_icc = [];
  car_curr = 0x44 ∷ 0x45 ∷ [];
  car_prev = [];
}

first_output_data :
    to_output_data first_output ≡ 0x90 ∷ 0x00 ∷ 2 ∷ 0 ∷ 0x31 ∷ 0x00 ∷ 2 ∷ 0x44 ∷ 0x45 ∷ []
unfolding to_output_data write_byte_array
first_output_data = refl

first_output-IsEncodable : IsEncodable first_output
first_output-IsEncodable = record {
  status_size = refl;
  access_present = refl;
  access_size = omega arith;
  curr_size = omega arith;
  prev_size = omega arith;
  icc_size = omega arith;
}

parse_output_data-to_output_data_example :
    parse_output_data (init CardReturnCode.ok) (to_output_data first_output)
    ≡ (true, record first_output { pace_return_code = CardReturnCode.ok })
unfolding init
parse_output_data-to_output_data_example =
    parse_output_data-to_output_data (init CardReturnCode.ok) first_output first_output-IsEncodable

parse-control_output_example :
    parse (init CardReturnCode.ok) (control_output first_output)
    ≡ (true, record first_output { pace_return_code = CardReturnCode.invalid_password })
unfolding relayed
parse-control_output_example =
    parse-control_output (init CardReturnCode.ok) first_output first_output-IsEncodable
      (rw first_output_data (omega arith))

parse_return_code-ok_iff_example :
    (parse_return_code 0xf0066300 ≡ CardReturnCode.ok) ↔ (◌≡◌ {A = ℕ} 0xf0066300 0)
parse_return_code-ok_iff_example = parse_return_code-ok_iff 0xf0066300

parse_return_code-invalid_password_iff_example :
    (parse_return_code 0xf0066300 ≡ CardReturnCode.invalid_password) ↔ (
      (0xf003 ≤ 0xf0066300 / 65536)
      × (0xf0066300 / 65536 ≤ 0xf006)
      × (0xf0066300 / 256 % 256 ≡ 0x63))
parse_return_code-invalid_password_iff_example = parse_return_code-invalid_password_iff 0xf0066300

relayed_code_example :
    (relayed CardReturnCode.ok_puk ≡ CardReturnCode.ok
      → is_no_error (to_global_status CardReturnCode.ok_puk) ≡ true)
    × (is_no_error (to_global_status CardReturnCode.ok_puk) ≡ true
        → relayed CardReturnCode.ok_puk ≡ CardReturnCode.ok)
    × (equals_wrong_pace_password (relayed CardReturnCode.ok_puk) ≡ true
        → equals_wrong_pace_password CardReturnCode.ok_puk ≡ true)
    × (relayed (relayed CardReturnCode.ok_puk) ≡ relayed CardReturnCode.ok_puk)
relayed_code_example = relayed_code CardReturnCode.ok_puk
