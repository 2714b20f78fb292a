-- ===== src/Json/Examples.antt =====
-- Runs of the JSON interface.
use ausweis_app.Prelude.{◌≤◌, true, false, none, [], ◌∷◌, ◌++◌, ◌≡◌, ◌⊎◌, refl, arith}
use ausweis_app.Bytes.{Bytes}
use ausweis_app.Card.PasswordId.{PacePasswordId}
use ausweis_app.Card.ReturnCode.{CardReturnCode, GlobalStatus}
use ausweis_app.Workflow.Reader.{ReaderInfo, no_reader}
use ausweis_app.Workflow.Context.{Kind, Context}
use ausweis_app.Json.Dispatcher.{
  MsgCmdType, cleared, init, reset, StateName, process_state_change, process_reader_change,
  create_for_command, answer_bad_state, is_active_workflow,
}
use ausweis_app.Json.Dispatcher.Active.{
  is_consistent, is_consistent_lem, create_for_command-is_active_workflow,
}
use ausweis_app.Json.Number.{string, handle_set_pin, least_pin_length}
use ausweis_app.Json.Number.Accepted.{
  IsPin, newline, all_digits, handle_set_pin-IsNumber, handle_set_pin-all_digits,
}

abbrev six_digits : Bytes
six_digits = 49 ∷ 50 ∷ 51 ∷ 52 ∷ 53 ∷ 54 ∷ []

abbrev context : Context
context = record {
  kind = Kind.change_pin false;
  state_approved = false;
  reader_name = 78 ∷ 70 ∷ 67 ∷ [];
  card_connection = none;
  card_vanished_count = 0;
  card_vanished_timer = none;
  can = [];
  pin = [];
  puk = [];
  new_pin = [];
  establish_pace_channel_type = PacePasswordId.pace_pin;
  expected_reader = no_reader;
  last_pace_result = CardReturnCode.ok;
  status = GlobalStatus.no_error;
  error_reported_to_user = true;
  pace_result_reported_to_user = false;
  workflow_cancelled = false;
  workflow_cancelled_in_state = false;
  insufficient_apdu_length = false;
  skip_redirect = false;
}

abbrev reader_info : Bytes → ReaderInfo
reader_info name = no_reader

handle_set_pin-IsNumber_example :
    (handle_set_pin reader_info (string six_digits) context ≡ context)
    ⊎ ((number : Bytes) × (handle_set_pin reader_info (string six_digits) context
          ≡ record context { pin = number; state_approved = true })
        × IsPin context.kind number)
handle_set_pin-IsNumber_example =
    handle_set_pin-IsNumber reader_info (string six_digits) context refl

six_all : all_digits six_digits ≡ true
unfolding all_digits
six_all = refl

five_least : least_pin_length context.kind ≤ 6
unfolding least_pin_length
five_least = omega arith

handle_set_pin-all_digits_example :
    (handle_set_pin reader_info (string six_digits) context
      ≡ record context { pin = six_digits; state_approved = true })
    × (handle_set_pin reader_info (string (six_digits ++ newline)) context
        ≡ record context { pin = six_digits ++ newline; state_approved = true })
handle_set_pin-all_digits_example =
    handle_set_pin-all_digits reader_info six_digits context refl refl six_all five_least
      (omega arith)

cleared_lem : is_consistent cleared ≡ true
unfolding is_consistent is_active_workflow
cleared_lem = refl

inactive : is_active_workflow cleared ≡ false
unfolding is_active_workflow
inactive = refl

is_consistent_lem_example :
    ((is_consistent (init context cleared) ≡ true) × (is_consistent (reset cleared) ≡ true))
    × (is_consistent (process_state_change true StateName.state_select_reader cleared).1 ≡ true)
    × (is_consistent (process_reader_change true cleared) ≡ true)
is_consistent_lem_example =
    is_consistent_lem context true StateName.state_select_reader cleared cleared_lem

create_for_command-is_active_workflow_example :
    create_for_command MsgCmdType.set_pin cleared ≡ answer_bad_state
create_for_command-is_active_workflow_example =
    create_for_command-is_active_workflow MsgCmdType.set_pin cleared cleared_lem refl inactive
