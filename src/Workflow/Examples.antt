-- ===== src/Workflow/Examples.antt =====
-- Runs of the states and of the machine of the PACE channel on concrete contexts.
use ausweis_app.Prelude.{
  ℕ, true, false, ◌&&◌, none, some, List, [], ◌∷◌, ◌≡◌, ◌≢◌, ◌↔◌, if◌then◌else◌, refl, arith,
  is_empty, length, ◌==◌,
}
use ausweis_app.Bytes.{Bytes, same_bytes}
use ausweis_app.Card.PasswordId.{PacePasswordId}
use ausweis_app.Card.ReturnCode.{
  CardReturnCode, GlobalStatus, is_error, to_global_status, equals_wrong_pace_password,
}
use ausweis_app.Workflow.Reader.{PlugInType, ReaderInfo, CardConnection, no_reader}
use ausweis_app.Workflow.Context.{
  Kind, Context, Environment, is_can_allowed_mode, reset_pace_passwords,
  is_npa_repositioning_required, get_expected_retry_counter, is_expected_reader, same_counter,
  update_status,
}
use ausweis_app.Workflow.States
use ausweis_app.Workflow.States.{
  run_clear_pace_passwords, Signal, fire, call, run_maintain_card_connection,
  run_unfortunate_card_position, PaceResultClass, pace_result_class,
}
use ausweis_app.Workflow.States.Maintaining.{
  run_maintain_card_connection-continue, run_maintain_card_connection-wrong_password,
  pace_result_class-equals_wrong_pace_password,
}
use ausweis_app.Workflow.Establish.{
  on_establish_connection_done, is_final_password, password_for, run_prepare_pace,
  run_verify_retry_counter, run_establish_pace_channel, is_pin, is_auth,
}
use ausweis_app.Workflow.Establish.Preparing.{
  required_now, run_prepare_pace-required_now, run_prepare_pace-run_verify_retry_counter,
  run_establish_pace_channel-sent_password,
}
use ausweis_app.Workflow.Establish.Repositioning.{vanish, is_npa_repositioning_required-vanish}
use ausweis_app.Workflow.Pace
use ausweis_app.Workflow.Pace.{State, Event, Config, at, established, start, run_events, step}
use ausweis_app.Workflow.Pace.Cleared.{passwords_empty}
use ausweis_app.Workflow.Pace.Passwords.{run_events-passwords_empty, step-cancel}
use ausweis_app.Workflow.Pace.Established.{IsWanted, step-established}

abbrev pub reader : ReaderInfo
reader = record {
  plug_in_type = PlugInType.nfc;
  name = 78 ∷ 70 ∷ 67 ∷ [];
  basic_reader = true;
  connected = true;
  max_apdu_length = none;
  eid_card = true;
  retry_counter = some 3;
  pin_deactivated = false;
}

abbrev pub connection : CardConnection
connection = record {
  reader_info = reader;
  pace_can_successful = false;
  pace_pin_successful = false;
}

abbrev pub six_digits : Bytes
six_digits = 49 ∷ 50 ∷ 51 ∷ 52 ∷ 53 ∷ 54 ∷ []

-- An authentication with a connected card and a stored PIN; nothing is expected yet.
abbrev pub context : Context
context = record {
  kind = Kind.auth false (1 ∷ []) (2 ∷ []);
  state_approved = false;
  reader_name = 78 ∷ 70 ∷ 67 ∷ [];
  card_connection = some connection;
  card_vanished_count = 0;
  card_vanished_timer = none;
  can = [];
  pin = six_digits;
  puk = [];
  new_pin = [];
  establish_pace_channel_type = PacePasswordId.pace_pin;
  expected_reader = no_reader;
  last_pace_result = CardReturnCode.ok;
  status = GlobalStatus.no_error;
  error_reported_to_user = true;
  pace_result_reported_to_user = false;
  workflow_cancelled = false;
  workflow_cancelled_in_state = false;
  insufficient_apdu_length = false;
  skip_redirect = false;
}

abbrev pub environment : Environment
environment = record {
  reader_infos = reader ∷ [];
  reader_info = λ name. reader;
  now = 0;
  used_as_sdk = false;
}

-- A communication error ends the workflow.
abbrev failed : Context
failed = record context { last_pace_result = CardReturnCode.command_failed }

abbrev failing_run : List (Environment × Event)
failing_run = (environment, Pace.approve) ∷ (environment, Pace.approve) ∷ []

failing_run_aborts :
    (run_events failing_run (start failed PacePasswordId.unknown)).position ≡ Pace.aborted
unfolding run_events run_maintain_card_connection is_error pace_result_class update_status
    to_global_status run_clear_pace_passwords reset_pace_passwords
failing_run_aborts = refl

failing_run_uncancelled :
    (run_events failing_run (start failed PacePasswordId.unknown)).context.workflow_cancelled
    ≡ false
unfolding run_events run_maintain_card_connection is_error pace_result_class update_status
    to_global_status run_clear_pace_passwords reset_pace_passwords
failing_run_uncancelled = refl

run_events-passwords_empty_example :
    passwords_empty (run_events failing_run (start failed PacePasswordId.unknown)).context ≡ true
run_events-passwords_empty_example =
    run_events-passwords_empty failing_run failed PacePasswordId.unknown failing_run_aborts
      failing_run_uncancelled

-- The PIN is accepted.
abbrev waiting : Context
waiting = record context { state_approved = true }

accepted :
    (step environment (Pace.establish_done CardReturnCode.ok) (record {
      position = at Pace.establish_pace_channel;
      context = waiting;
      password_id = PacePasswordId.pace_pin;
    })).position
    ≡ established
unfolding step on_establish_connection_done is_final_password
accepted = refl

step-established_example :
    (Pace.establish_pace_channel ≡ Pace.establish_pace_channel)
    × (Pace.establish_done CardReturnCode.ok ≡ Pace.establish_done CardReturnCode.ok)
    × IsWanted PacePasswordId.pace_pin waiting
step-established_example =
    step-established environment Pace.establish_pace_channel (Pace.establish_done CardReturnCode.ok)
      waiting PacePasswordId.pace_pin accepted

not_can_allowed : (is_can_allowed_mode context && false) ≡ false
unfolding is_can_allowed_mode
not_can_allowed = refl

run_prepare_pace-required_now_example :
    ((run_prepare_pace context).1
      ≡ record context { establish_pace_channel_type = required_now connection context })
    × ((run_prepare_pace context).0
        ≡ fire (
            if is_empty (password_for (required_now connection context) context)
            then Signal.fire_enter_pace_password
            else Signal.fire_establish_pace_channel))
run_prepare_pace-required_now_example =
    run_prepare_pace-required_now connection context refl refl not_can_allowed

unexpected :
    (is_expected_reader context && same_counter (get_expected_retry_counter context) (some 3))
    ≡ false
unfolding is_expected_reader get_expected_retry_counter same_bytes
unexpected = refl

run_prepare_pace-run_verify_retry_counter_example :
    ((run_verify_retry_counter context).0 ≡ fire Signal.fire_continue)
    × (get_expected_retry_counter (run_verify_retry_counter context).1 ≡ some 3)
    × ((run_prepare_pace (run_verify_retry_counter context).1).0
        ≡ fire Signal.fire_enter_pace_password)
run_prepare_pace-run_verify_retry_counter_example =
    run_prepare_pace-run_verify_retry_counter connection context refl unexpected refl
      not_can_allowed

sent :
    (run_establish_pace_channel context).0
    ≡ call (States.establish_pace_channel PacePasswordId.pace_pin six_digits (1 ∷ []) (2 ∷ []))
unfolding run_establish_pace_channel is_error is_final_password
sent = refl

run_establish_pace_channel-sent_password_example :
    (six_digits ≡ password_for PacePasswordId.pace_pin context)
    × (is_empty six_digits ≡ false)
    × ((is_pin PacePasswordId.pace_pin && is_auth context.kind && (length six_digits == 5)) ≡ false)
run_establish_pace_channel-sent_password_example =
    run_establish_pace_channel-sent_password connection context
      (States.establish_pace_channel PacePasswordId.pace_pin six_digits (1 ∷ []) (2 ∷ []))
      six_digits refl refl sent refl

continues : (run_maintain_card_connection context).0 ≡ fire Signal.fire_continue
unfolding run_maintain_card_connection is_error pace_result_class
continues = refl

run_maintain_card_connection-continue_example :
    (is_error GlobalStatus.no_error ≡ false)
    × (CardReturnCode.ok ≡ CardReturnCode.ok)
    × (context.card_connection ≢ none)
    × ((run_maintain_card_connection context).1 ≡ context)
run_maintain_card_connection-continue_example =
    run_maintain_card_connection-continue context continues

abbrev wrong_pin : Context
wrong_pin = record context { last_pace_result = CardReturnCode.invalid_pin }

no_error_lem : is_error GlobalStatus.no_error ≡ false
unfolding is_error
no_error_lem = refl

wrong_lem : equals_wrong_pace_password CardReturnCode.invalid_pin ≡ true
unfolding equals_wrong_pace_password
wrong_lem = refl

run_maintain_card_connection-wrong_password_example :
    run_maintain_card_connection wrong_pin
    ≡ (fire Signal.fire_force_update_retry_counter, reset_pace_passwords wrong_pin)
run_maintain_card_connection-wrong_password_example =
    run_maintain_card_connection-wrong_password wrong_pin no_error_lem wrong_lem

pace_result_class-equals_wrong_pace_password_example :
    (pace_result_class CardReturnCode.pin_blocked ≡ PaceResultClass.wrong_password)
    ↔ (equals_wrong_pace_password CardReturnCode.pin_blocked ≡ true)
pace_result_class-equals_wrong_pace_password_example =
    pace_result_class-equals_wrong_pace_password CardReturnCode.pin_blocked

abbrev ten_times : List ℕ
ten_times = 1 ∷ 2 ∷ 3 ∷ 4 ∷ 5 ∷ 6 ∷ 7 ∷ 8 ∷ 9 ∷ 10 ∷ []

is_npa_repositioning_required-vanish_example :
    (is_npa_repositioning_required 11 (vanish ten_times context) ≡ true)
    × (is_npa_repositioning_required 11 (run_unfortunate_card_position (vanish ten_times context)).1
        ≡ false)
is_npa_repositioning_required-vanish_example =
    is_npa_repositioning_required-vanish ten_times 11 context (omega arith)

-- The user cancels while a PIN is stored.
abbrev cancelled_run : Config
cancelled_run = step environment Pace.cancel (record {
  position = at Pace.clear_pace_passwords_on_error;
  context = failed;
  password_id = PacePasswordId.unknown;
})

step-cancel_example :
    (cancelled_run.position ≡ Pace.aborted)
    × (cancelled_run.context.can ≡ [])
    × (cancelled_run.context.pin ≡ six_digits)
    × (cancelled_run.context.puk ≡ [])
step-cancel_example = step-cancel environment failed PacePasswordId.unknown cancelled_run refl
