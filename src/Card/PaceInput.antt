-- ===== src/Card/PaceInput.antt =====
-- card/base/EstablishPaceChannel.cpp: the input of the PACE channel command in the form of PC/SC
-- part 10. The CCID form is an ASN.1 structure of OpenSSL's templates and is not modelled.
pub mod RoundTrip
use ausweis_app.Prelude.{
  ℕ, ◌+◌, Bool, true, false, Option, none, some, List, [], ◌∷◌, ◌++◌, ltb, ◌==◌, if◌then◌else◌,
  length,
}
use ausweis_app.Bytes.{Bytes, at, low_byte, high_byte}
use ausweis_app.Card.PasswordId.{PacePasswordId, password_value, password_of_value}
use ausweis_app.Card.LengthValue.{read_byte_array}

pub record EstablishPaceChannel : Type 0 where
  pub password_id : PacePasswordId
  pub chat : Bytes
  pub certificate_description : Bytes
  pub password : Bytes

-- The state after the two values are set from the input, and whether the input ends with them.
unfoldable pub from_input_fields :
    EstablishPaceChannel → PacePasswordId → Bytes → Bool × EstablishPaceChannel
unfolding read_byte_array
from_input_fields channel id input =
    let (chat, after_chat) = read_byte_array 1 input 1 in
    let (ignored, after_password) = read_byte_array 1 input after_chat in
    let (description, end) = read_byte_array 2 input after_password in
    (
      length input == end,
      record channel { password_id = id; chat = chat; certificate_description = description },
    )

-- `fromInputData`: whether the input is accepted, and the channel's new state.
unfoldable pub from_input_data : EstablishPaceChannel → Bytes → Bool × EstablishPaceChannel
unfolding from_input_fields password_of_value
from_input_data channel input =
    let cleared : EstablishPaceChannel = record channel {
      password_id = PacePasswordId.unknown;
      chat = [];
      certificate_description = [];
    } in
    if ltb (length input) 5 then (false, cleared) else elim (password_of_value (at input 0)) [
      | none ↦ (false, cleared)
      | some id ↦ from_input_fields cleared id input
    ]

unfoldable pub create_input_data : EstablishPaceChannel → Bytes
unfolding password_value
create_input_data channel =
    if ltb 0xff (length channel.chat)
    then []
    else if ltb 0xffff (length channel.certificate_description)
    then []
    else password_value channel.password_id
      ∷ low_byte (length channel.chat)
      ∷ (channel.chat
          ++ (low_byte (length channel.password)
              ∷ (channel.password
                  ++ (low_byte (length channel.certificate_description)
                      ∷ high_byte (length channel.certificate_description)
                      ∷ channel.certificate_description))))

-- `createCommandData`: the index of the command, the length of the input, and the input.
unfoldable pub create_command_data : EstablishPaceChannel → Bytes
unfolding create_input_data
create_command_data channel =
    let input = create_input_data channel in
    if ltb 0xffff (length input)
    then []
    else 0x02 ∷ low_byte (length input) ∷ high_byte (length input) ∷ input
