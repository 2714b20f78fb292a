-- ===== src/Card/PaceOutput/ErrorCode.antt =====
-- card/base/pace/EstablishPaceChannelCode.h, and the two translations between its codes and
-- `CardReturnCode` in card/base/EstablishPaceChannelOutput.cpp.
use ausweis_app.Prelude.{ℕ, ◌/◌, ◌%◌, Bool, ◌&&◌, ◌||◌, ◌==◌, if◌then◌else◌}
use ausweis_app.Card.ReturnCode.{CardReturnCode}

-- `EstablishPaceChannelErrorCode`
pub data ErrorCode : Type 0 where
  no_error inconsistent_lengths_in_input unexpected_data_in_input : ErrorCode
  unexpected_combination_of_data_in_input syntax_error_in_tlv_response : ErrorCode
  unexpected_or_missing_object_in_tlv_response unknown_password_id : ErrorCode
  wrong_authentication_token : ErrorCode
  certificate_chain_for_terminal_authentication_cannot_be_built : ErrorCode
  unexpected_data_structure_in_response_to_chip_authentication : ErrorCode
  passive_authentication_failed incorrect_token_for_chip_authentication : ErrorCode
  general_authenticate_step_1_4_warning communication_abort no_card abort timeout : ErrorCode
  no_active_pin_set : ErrorCode

-- `Enum<EstablishPaceChannelErrorCode>::getValue`
unfoldable pub error_value : ErrorCode → ℕ
error_value ErrorCode.no_error = 0x00000000
error_value ErrorCode.inconsistent_lengths_in_input = 0xD0000001
error_value ErrorCode.unexpected_data_in_input = 0xD0000002
error_value ErrorCode.unexpected_combination_of_data_in_input = 0xD0000003
error_value ErrorCode.syntax_error_in_tlv_response = 0xE0000001
error_value ErrorCode.unexpected_or_missing_object_in_tlv_response = 0xE0000002
error_value ErrorCode.unknown_password_id = 0xE0000003
error_value ErrorCode.wrong_authentication_token = 0xE0000006
error_value ErrorCode.certificate_chain_for_terminal_authentication_cannot_be_built = 0xE0000007
error_value ErrorCode.unexpected_data_structure_in_response_to_chip_authentication = 0xE0000008
error_value ErrorCode.passive_authentication_failed = 0xE0000009
error_value ErrorCode.incorrect_token_for_chip_authentication = 0xE000000A
error_value ErrorCode.general_authenticate_step_1_4_warning = 0xf0066300
error_value ErrorCode.communication_abort = 0xF0100001
error_value ErrorCode.no_card = 0xF0100002
error_value ErrorCode.abort = 0xF0200001
error_value ErrorCode.timeout = 0xF0200002
error_value ErrorCode.no_active_pin_set = 0xF0200003

-- The second `switch`, on codes that wrap a status of the card. `n / 2 ^ 16` is compared for
-- `n & 0xffff0000`, and `n / 256 % 256` for `n & 0xff00`.
unfoldable pub parse_wrapped_code : ℕ → CardReturnCode
parse_wrapped_code n =
    if (n / 65536 == 0xf003
        || (n / 65536 == 0xf004 || (n / 65536 == 0xf005 || n / 65536 == 0xf006)))
      && (n / 256 % 256 == 0x63)
    then CardReturnCode.invalid_password
    else CardReturnCode.unknown

-- The codes that the first `switch` takes for a failed command.
unfoldable pub is_command_failure : ℕ → Bool
unfolding error_value
is_command_failure n =
    n == error_value ErrorCode.inconsistent_lengths_in_input
    || (n == error_value ErrorCode.unexpected_data_in_input
        || (n == error_value ErrorCode.unexpected_combination_of_data_in_input
            || (n == error_value ErrorCode.syntax_error_in_tlv_response
                || (n == error_value ErrorCode.unexpected_or_missing_object_in_tlv_response
                    || (n == error_value ErrorCode.unknown_password_id
                        || (n == error_value ErrorCode.wrong_authentication_token
                            || n == error_value ErrorCode.communication_abort))))))

unfoldable pub parse_return_code : ℕ → CardReturnCode
unfolding error_value is_command_failure parse_wrapped_code
parse_return_code n =
    if n == error_value ErrorCode.no_error
    then CardReturnCode.ok
    else if is_command_failure n
    then CardReturnCode.command_failed
    else if n == error_value ErrorCode.no_card
    then CardReturnCode.card_not_found
    else if n == error_value ErrorCode.abort
    then CardReturnCode.cancellation_by_user
    else if n == error_value ErrorCode.timeout
    then CardReturnCode.input_time_out
    else if n == error_value ErrorCode.no_active_pin_set
    then CardReturnCode.no_active_pin_set
    else parse_wrapped_code n

unfoldable pub generate_return_code : CardReturnCode → ErrorCode
generate_return_code CardReturnCode.unknown = ErrorCode.unexpected_data_in_input
generate_return_code CardReturnCode.undefined = ErrorCode.unexpected_data_in_input
generate_return_code CardReturnCode.new_pin_mismatch = ErrorCode.unexpected_data_in_input
generate_return_code CardReturnCode.new_pin_invalid_length = ErrorCode.unexpected_data_in_input
generate_return_code CardReturnCode.pin_blocked = ErrorCode.unexpected_data_in_input
generate_return_code CardReturnCode.pin_not_blocked = ErrorCode.unexpected_data_in_input
generate_return_code CardReturnCode.puk_inoperative = ErrorCode.unexpected_data_in_input
generate_return_code CardReturnCode.unexpected_transmit_status = ErrorCode.unexpected_data_in_input
generate_return_code CardReturnCode.protocol_error = ErrorCode.unexpected_data_in_input
generate_return_code CardReturnCode.invalid_can = ErrorCode.general_authenticate_step_1_4_warning
generate_return_code CardReturnCode.invalid_password =
    ErrorCode.general_authenticate_step_1_4_warning
generate_return_code CardReturnCode.invalid_pin = ErrorCode.general_authenticate_step_1_4_warning
generate_return_code CardReturnCode.invalid_pin_2 = ErrorCode.general_authenticate_step_1_4_warning
generate_return_code CardReturnCode.invalid_pin_3 = ErrorCode.general_authenticate_step_1_4_warning
generate_return_code CardReturnCode.invalid_puk = ErrorCode.general_authenticate_step_1_4_warning
generate_return_code CardReturnCode.ok = ErrorCode.no_error
generate_return_code CardReturnCode.ok_puk = ErrorCode.no_error
generate_return_code CardReturnCode.card_not_found = ErrorCode.no_card
generate_return_code CardReturnCode.retry_allowed = ErrorCode.no_card
generate_return_code CardReturnCode.input_time_out = ErrorCode.timeout
generate_return_code CardReturnCode.command_failed = ErrorCode.communication_abort
generate_return_code CardReturnCode.cancellation_by_user = ErrorCode.abort
generate_return_code CardReturnCode.no_active_pin_set = ErrorCode.no_active_pin_set
