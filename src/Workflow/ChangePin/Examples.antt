-- ===== src/Workflow/ChangePin/Examples.antt =====
-- Runs of the change of the PIN: a successful one, and a cancelled one.
use ausweis_app.Prelude.{true, false, List, [], ◌∷◌, ◌≡◌, refl, arith, replicate}
use ausweis_app.Card.PasswordId.{PacePasswordId}
use ausweis_app.Card.ReturnCode.{CardReturnCode, is_error, is_no_error, to_global_status}
use ausweis_app.Workflow.Context.{
  Kind, Context, Environment, reset_pace_passwords, reset_card_connection, update_status,
  set_status,
}
use ausweis_app.Workflow.States as States
use ausweis_app.Workflow.States.{Signal}
use ausweis_app.Workflow.Pace as Pace
use ausweis_app.Workflow.Pace.{approve, cancel, establish_done, retry_counter_done, destroy_done}
use ausweis_app.Workflow.ChangePin.{
  ChangePinEvent, shared, set_eid_pin_done, stopped, start_change_pin, run_change_pin_events,
  step_change_pin,
}
use ausweis_app.Workflow.ChangePin as ChangePin
use ausweis_app.Workflow.ChangePin.Ending.{drive}
use ausweis_app.Workflow.ChangePin.Cancelled.{drive-cancel}
use ausweis_app.Workflow.ChangePin.Erased.{is_all_empty, run_change_pin_events-is_all_empty}
use ausweis_app.Workflow.Examples.{reader, context, environment, six_digits}

-- A change of the PIN with the old and the new one stored, on the card that is expected.
abbrev changing : Context
changing = record context {
  kind = Kind.change_pin false;
  new_pin = six_digits;
  expected_reader = reader;
}

abbrev happening : ChangePinEvent → Environment × ChangePinEvent
happening event = (environment, event)

abbrev failed : Context
failed = record changing { last_pace_result = CardReturnCode.command_failed }

abbrev failing : List (Environment × ChangePinEvent)
failing =
    happening (shared approve)
    ∷ happening (shared approve)
    ∷ happening (shared approve)
    ∷ happening (shared approve)
    ∷ happening (shared (retry_counter_done CardReturnCode.ok))
    ∷ happening (shared approve)
    ∷ happening (shared approve)
    ∷ []

failing_ends :
    (run_change_pin_events failing (start_change_pin failed PacePasswordId.unknown)).place ≡ stopped
unfolding run_change_pin_events step_change_pin ChangePin.leave_pace ChangePin.dispatch_event
    ChangePin.react_to ChangePin.enter_state ChangePin.deliver_signal ChangePin.go_to
    ChangePin.change_pin_transition ChangePin.run_change_pin_state ChangePin.handle_event
    ChangePin.run_clean_up_reader_manager Pace.step Pace.dispatch Pace.react Pace.run_state
    Pace.approved Pace.deliver Pace.transition Pace.move Pace.enter
    States.run_maintain_card_connection States.pace_result_class States.run_clear_pace_passwords
    States.run_update_retry_counter States.on_update_retry_counter_done States.is_ok
    reset_pace_passwords reset_card_connection update_status set_status is_error is_no_error
    to_global_status
failing_ends = refl

failing_uncancelled :
    (run_change_pin_events failing
      (start_change_pin failed PacePasswordId.unknown)).pace.context.workflow_cancelled
    ≡ false
unfolding run_change_pin_events step_change_pin ChangePin.leave_pace ChangePin.dispatch_event
    ChangePin.react_to ChangePin.enter_state ChangePin.deliver_signal ChangePin.go_to
    ChangePin.change_pin_transition ChangePin.run_change_pin_state ChangePin.handle_event
    ChangePin.run_clean_up_reader_manager Pace.step Pace.dispatch Pace.react Pace.run_state
    Pace.approved Pace.deliver Pace.transition Pace.move Pace.enter
    States.run_maintain_card_connection States.pace_result_class States.run_clear_pace_passwords
    States.run_update_retry_counter States.on_update_retry_counter_done States.is_ok
    reset_pace_passwords reset_card_connection update_status set_status is_error is_no_error
    to_global_status
failing_uncancelled = refl

run_change_pin_events-is_all_empty_example :
    is_all_empty
      (run_change_pin_events failing (start_change_pin failed PacePasswordId.unknown)).pace.context
    ≡ true
run_change_pin_events-is_all_empty_example =
    run_change_pin_events-is_all_empty failed PacePasswordId.unknown failing failing_ends
      failing_uncancelled

drive-cancel_example :
    (drive (replicate 9 (environment, CardReturnCode.command_failed)) (
      step_change_pin environment (shared cancel) (
        run_change_pin_events
          (happening (shared approve) ∷ [])
          (start_change_pin changing PacePasswordId.unknown)))).place
    ≡ stopped
drive-cancel_example =
    drive-cancel changing PacePasswordId.unknown (happening (shared approve) ∷ []) environment
      (replicate 9 (environment, CardReturnCode.command_failed)) (omega arith)
