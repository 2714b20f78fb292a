-- ===== src/Card/ReturnCode.antt =====
-- global/GlobalStatus.h and global/CardReturnCode.cpp: the codes by which the card layer reports
-- to the workflows and the workflows to the user. A status is its code alone: the external
-- information and the origin that it carries are texts for the user.
mod Status
unfoldable pub use Status.*
use ausweis_app.Prelude.{◌≡◌, refl, Bool, true, false, arith}

pub data CardReturnCode : Type 0 where
  undefined ok ok_puk retry_allowed card_not_found unknown input_time_out invalid_can
        invalid_password invalid_pin invalid_pin_2 invalid_pin_3 invalid_puk command_failed
        cancellation_by_user new_pin_mismatch new_pin_invalid_length pin_blocked pin_not_blocked
        puk_inoperative no_active_pin_set protocol_error unexpected_transmit_status :
      CardReturnCode

unfoldable pub to_global_status : CardReturnCode → GlobalStatus
to_global_status undefined = GlobalStatus.unknown_error
to_global_status ok = GlobalStatus.no_error
to_global_status ok_puk = GlobalStatus.no_error
to_global_status retry_allowed = GlobalStatus.card_not_found
to_global_status card_not_found = GlobalStatus.card_not_found
to_global_status unknown = GlobalStatus.unknown_error
to_global_status input_time_out = GlobalStatus.card_input_time_out
to_global_status invalid_can = GlobalStatus.card_invalid_can
to_global_status invalid_password = GlobalStatus.card_invalid_pin
to_global_status invalid_pin = GlobalStatus.card_invalid_pin
to_global_status invalid_pin_2 = GlobalStatus.card_invalid_pin
to_global_status invalid_pin_3 = GlobalStatus.card_invalid_pin
to_global_status invalid_puk = GlobalStatus.card_invalid_puk
to_global_status command_failed = GlobalStatus.card_communication_error
to_global_status cancellation_by_user = GlobalStatus.card_cancellation_by_user
to_global_status new_pin_mismatch = GlobalStatus.card_new_pin_mismatch
to_global_status new_pin_invalid_length = GlobalStatus.card_new_pin_invalid_length
to_global_status pin_blocked = GlobalStatus.card_pin_blocked
to_global_status pin_not_blocked = GlobalStatus.card_pin_not_blocked
to_global_status puk_inoperative = GlobalStatus.card_puk_blocked
to_global_status no_active_pin_set = GlobalStatus.card_invalid_pin
to_global_status protocol_error = GlobalStatus.card_protocol_error
to_global_status unexpected_transmit_status = GlobalStatus.card_unexpected_transmit_status

unfoldable pub equals_wrong_pace_password : CardReturnCode → Bool
equals_wrong_pace_password undefined = false
equals_wrong_pace_password ok = false
equals_wrong_pace_password ok_puk = false
equals_wrong_pace_password retry_allowed = false
equals_wrong_pace_password card_not_found = false
equals_wrong_pace_password unknown = false
equals_wrong_pace_password input_time_out = false
equals_wrong_pace_password invalid_can = true
equals_wrong_pace_password invalid_password = true
equals_wrong_pace_password invalid_pin = true
equals_wrong_pace_password invalid_pin_2 = true
equals_wrong_pace_password invalid_pin_3 = true
equals_wrong_pace_password invalid_puk = true
equals_wrong_pace_password command_failed = false
equals_wrong_pace_password cancellation_by_user = false
equals_wrong_pace_password new_pin_mismatch = true
equals_wrong_pace_password new_pin_invalid_length = true
equals_wrong_pace_password pin_blocked = true
equals_wrong_pace_password pin_not_blocked = true
equals_wrong_pace_password puk_inoperative = false
equals_wrong_pace_password no_active_pin_set = false
equals_wrong_pace_password protocol_error = false
equals_wrong_pace_password unexpected_transmit_status = false

-- Only the two OK codes report no error, and none of them is a wrong password.
pub to_global_status-is_no_error :
    (code : CardReturnCode)
    → is_no_error (to_global_status code) ≡ true
    → equals_wrong_pace_password code ≡ false
unfolding to_global_status equals_wrong_pace_password is_no_error
to_global_status-is_no_error ok h = refl
to_global_status-is_no_error c h = ground arith
