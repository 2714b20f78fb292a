-- ===== src/Card/PaceOutput.antt =====
-- card/base/EstablishPaceChannelOutput.cpp: the output of the PACE channel command in the form of
-- PC/SC part 10. The CCID form is an ASN.1 structure of OpenSSL's templates and is not modelled.
pub mod ErrorCode
mod Reading
pub mod Relay
pub mod RoundTrip
use ausweis_app.Prelude.{
  ℕ, ◌+◌, Bool, true, false, not, ◌&&◌, ◌||◌, List, [], ◌∷◌, ◌++◌, ltb, ◌==◌, if◌then◌else◌, length,
  is_empty, drop,
}
use ausweis_app.Bytes.{Bytes, mid, little_endian16, little_endian32, to_little_endian32}
use ausweis_app.Card.ReturnCode.{CardReturnCode}
use ausweis_app.Card.LengthValue.{read_byte_array, write_byte_array}
use ausweis_app.Card.PaceOutput.ErrorCode.{error_value, parse_return_code, generate_return_code}

pub record EstablishPaceChannelOutput : Type 0 where
  pub pace_return_code : CardReturnCode
  pub status_mse_set_at : Bytes
  pub ef_card_access : Bytes
  pub id_icc : Bytes
  pub car_curr : Bytes
  pub car_prev : Bytes

-- `initMseStatusSetAt` and `initEfCardAccess`
abbrev pub initial_status_mse_set_at : Bytes
initial_status_mse_set_at = 0x00 ∷ 0x00 ∷ []

abbrev pub initial_ef_card_access : Bytes
initial_ef_card_access = 0x31 ∷ 0x00 ∷ []

-- The constructor.
unfoldable pub init : CardReturnCode → EstablishPaceChannelOutput
init code = record {
  pace_return_code = code;
  status_mse_set_at = initial_status_mse_set_at;
  ef_card_access = initial_ef_card_access;
  id_icc = [];
  car_curr = [];
  car_prev = [];
}

-- The parts of `parseOutputData` that read `mIdIcc`, `mCarPrev` and `mCarCurr`, each with the
-- rest of the function behind it.
unfoldable pub parse_id_icc :
    EstablishPaceChannelOutput → Bytes → ℕ → Bool × EstablishPaceChannelOutput
parse_id_icc output input it =
    let (icc, end) = read_byte_array 2 input it in
    (end == length input, record output { id_icc = icc })

unfoldable pub parse_car_prev :
    EstablishPaceChannelOutput → Bytes → ℕ → Bool × EstablishPaceChannelOutput
parse_car_prev output input it =
    let (prev, after) = read_byte_array 1 input it in
    let output' = record output { car_prev = prev } in
    if ltb (length input) after then (false, output') else parse_id_icc output' input after

unfoldable pub parse_car_curr :
    EstablishPaceChannelOutput → Bytes → ℕ → Bool × EstablishPaceChannelOutput
parse_car_curr output input it =
    let (curr, after) = read_byte_array 1 input it in
    let output' = record output { car_curr = curr } in
    if ltb (length input) after then (false, output') else parse_car_prev output' input after

-- The part of `parseOutputData` behind `mEfCardAccess`, with the offset there.
unfoldable pub parse_cars :
    EstablishPaceChannelOutput → Bytes → ℕ → Bool × EstablishPaceChannelOutput
parse_cars output input it =
    if it == length input
    then (true, output)
    else if ltb (length input) it
    then (false, output)
    else parse_car_curr output input it

-- Whether the data is accepted, and the new state.
unfoldable pub parse_output_data :
    EstablishPaceChannelOutput → Bytes → Bool × EstablishPaceChannelOutput
unfolding init
parse_output_data output input =
    let fresh = init output.pace_return_code in
    if is_empty input
    then (true, fresh)
    else if ltb (length input) 4
    then (false, fresh)
    else (let (ef_card_access, it) = read_byte_array 2 input 2 in
        parse_cars
          (record fresh {
            status_mse_set_at = mid input 0 2;
            ef_card_access =
                if is_empty ef_card_access then initial_ef_card_access else ef_card_access;
          })
          input it)

unfoldable pub parse_result_code :
    EstablishPaceChannelOutput → Bytes → Bool × EstablishPaceChannelOutput
unfolding parse_return_code
parse_result_code output input =
    if ltb (length input) 4
    then (false, record output { pace_return_code = CardReturnCode.command_failed })
    else (true, record output { pace_return_code = parse_return_code (little_endian32 input) })

unfoldable pub parse : EstablishPaceChannelOutput → Bytes → Bool × EstablishPaceChannelOutput
unfolding init parse_result_code
parse output input =
    let fresh = init CardReturnCode.command_failed in
    if ltb (length input) 6
    then (false, fresh)
    else (let (code_read, with_code) = parse_result_code fresh input in
        let size = little_endian16 (drop 4 input) in
        if ltb (length input) (6 + size)
        then (false, with_code)
        else (let (data_read, done) = parse_output_data with_code (mid input 6 size) in
            (data_read && code_read, done)))

unfoldable pub set_status_mse_set_at :
    EstablishPaceChannelOutput → Bytes → EstablishPaceChannelOutput
set_status_mse_set_at output value = record output {
  status_mse_set_at = if is_empty value then initial_status_mse_set_at else value;
}

unfoldable pub set_ef_card_access : EstablishPaceChannelOutput → Bytes → EstablishPaceChannelOutput
set_ef_card_access output value = record output {
  ef_card_access = if is_empty value then initial_ef_card_access else value;
}

unfoldable pub to_result_code : EstablishPaceChannelOutput → Bytes
unfolding error_value generate_return_code
to_result_code output =
    to_little_endian32 (error_value (generate_return_code output.pace_return_code))

unfoldable pub to_output_data : EstablishPaceChannelOutput → Bytes
to_output_data output =
    let access = write_byte_array 2 ef_card_access status_mse_set_at in
    let curr =
      if not (is_empty car_curr) || (not (is_empty car_prev) || not (is_empty id_icc))
      then write_byte_array 1 car_curr access
      else access in
    let prev =
      if not (is_empty car_prev) || not (is_empty id_icc)
      then write_byte_array 1 car_prev curr
      else curr in
    if not (is_empty id_icc) then write_byte_array 2 id_icc prev else prev
  where
    open output use {status_mse_set_at, ef_card_access, id_icc, car_curr, car_prev}
