-- ===== src/Workflow/ChangePin/Cancelled.antt =====
-- The end of the change of the PIN after a cancellation, whatever has happened before.
use ausweis_app.Prelude.{◌≤◌, true, false, ◌≡◌, refl, ◌∙◌, List, length, arith}
use ausweis_app.Card.PasswordId.{PacePasswordId}
use ausweis_app.Card.ReturnCode.{CardReturnCode, GlobalStatus, is_error, is_no_error}
use ausweis_app.Workflow.Context.{
  Context, Environment, update_status, set_status, set_last_pace_result,
}
use ausweis_app.Workflow.States.{Signal}
use ausweis_app.Workflow.Pace as Pace
use ausweis_app.Workflow.Pace.{
  Config, State, Position, at, established, aborted, approve, cancel, retry_counter_done,
  destroy_done,
}
use ausweis_app.Workflow.ChangePin.{
  ChangePinState, Place, in_pace, stopped, in_state, ChangePinEvent, shared, final, abort,
  change_pin_transition, cancelled_in_state, go_to_pace, go_to, deliver_signal, enter_state,
  react_to, dispatch_event, leave_pace, step_change_pin, run_change_pin_events, start_change_pin,
}
use ausweis_app.Workflow.ChangePin.Ending.{drive, is_closing, at_place, drive-stopped}
use ausweis_app.Workflow.ChangePin.Settled.{is_settled, is_last, run-is_settled}

-- The status after a cancellation.
noting :
    (context : Context)
    → is_error (update_status GlobalStatus.workflow_cancellation_by_user context).status ≡ true
unfolding update_status set_status is_error is_no_error
noting context = ground arith

noting_flag :
    (context : Context)
    → (update_status GlobalStatus.workflow_cancellation_by_user
        (record context { workflow_cancelled_in_state = true })).workflow_cancelled_in_state
      ≡ true
unfolding update_status set_status
noting_flag context = ground arith

-- Where the abort of a cancelled state leads to.
pace-aborted :
    (state : State) (context : Context) (id : PacePasswordId)
    → is_error context.status ≡ true
    → context.workflow_cancelled_in_state ≡ true
    → is_closing 9 (
        leave_pace (record {
          place = in_pace;
          pace = Pace.enter (
              Pace.deliver state Signal.fire_abort
                (record { position = at state; context = context; password_id = id }));
        }))
      ≡ true
unfolding is_closing leave_pace Pace.enter Pace.deliver Pace.transition Pace.move go_to enter_state
pace-aborted state context id error flag = ground (arith, error, flag)

state-aborted :
    (state : ChangePinState) (context : Context) (position : Position) (id : PacePasswordId)
    → is_last state ≡ false
    → is_error context.status ≡ true
    → context.workflow_cancelled_in_state ≡ true
    → is_closing 9
        (enter_state (deliver_signal state abort (at_place (in_state state) position context id)))
      ≡ true
unfolding is_closing enter_state deliver_signal change_pin_transition go_to go_to_pace Pace.enter
    is_last
state-aborted state context position id other error flag = ground (arith, error, flag, other)

pace-cancelled :
    (env : Environment) (state : State) (context : Context) (id : PacePasswordId)
    → is_closing 9 (step_change_pin env (shared cancel) (at_place in_pace (at state) context id))
      ≡ true
unfolding step_change_pin Pace.step Pace.dispatch Pace.react Pace.on_user_cancelled
pace-cancelled env state context id =
    let noted : Context = elim state [
      | Pace.establish_pace_channel ↦
          set_last_pace_result CardReturnCode.cancellation_by_user
            (record context { workflow_cancelled = true })
      | _ ↦ record context { workflow_cancelled = true }
    ] in
    pace-aborted state
      (update_status GlobalStatus.workflow_cancellation_by_user
        (record noted { workflow_cancelled_in_state = true }))
      id (noting (record noted { workflow_cancelled_in_state = true })) (noting_flag noted)

final-cancelled :
    (context : Context) (position : Position) (id : PacePasswordId)
    → context.state_approved ≡ false
    → is_error context.status ≡ true
    → context.workflow_cancelled_in_state ≡ true
    → is_closing 9
        (enter_state (deliver_signal final abort (at_place (in_state final) position context id)))
      ≡ true
unfolding is_closing enter_state deliver_signal change_pin_transition
final-cancelled context position id fresh error flag = ground (arith, fresh, error, flag)

approved_kept :
    (context : Context) → (cancelled_in_state context).state_approved ≡ context.state_approved
unfolding cancelled_in_state update_status set_status
approved_kept context = ground arith

last_fresh :
    (position : Position) (context : Context) (id : PacePasswordId)
    → is_settled (at_place (in_state final) position context id) ≡ true
    → context.state_approved ≡ false
unfolding is_settled
last_fresh position context id h = ground (arith, h)

state-cancelled :
    (env : Environment) (state : ChangePinState) (position : Position) (context : Context)
    (id : PacePasswordId)
    → is_settled (at_place (in_state state) position context id) ≡ true
    → is_closing 9
        (step_change_pin env (shared cancel) (at_place (in_state state) position context id))
      ≡ true
unfolding step_change_pin dispatch_event react_to is_last cancelled_in_state
state-cancelled env final position context id h =
    let cancelled : Context = record context { workflow_cancelled = true } in
    final-cancelled (cancelled_in_state cancelled) position id
      (approved_kept cancelled ∙ last_fresh position context id h)
      (noting (record cancelled { workflow_cancelled_in_state = true })) (noting_flag cancelled)
state-cancelled env state position context id h =
    let cancelled : Context = record context { workflow_cancelled = true } in
    state-aborted state (cancelled_in_state cancelled) position id refl
      (noting (record cancelled { workflow_cancelled_in_state = true })) (noting_flag cancelled)

cancel-is_closing :
    (env : Environment) (place : Place) (position : Position) (context : Context)
    (id : PacePasswordId)
    → is_settled (at_place place position context id) ≡ true
    → is_closing 9 (step_change_pin env (shared cancel) (at_place place position context id)) ≡ true
unfolding is_settled is_closing step_change_pin
cancel-is_closing env stopped position context id h = refl
cancel-is_closing env in_pace (at state) context id h = pace-cancelled env state context id
cancel-is_closing env in_pace established context id h = ground (arith, h)
cancel-is_closing env in_pace aborted context id h = ground (arith, h)
cancel-is_closing env (in_state state) position context id h =
    state-cancelled env state position context id h

start-is_settled :
    (context : Context) (id : PacePasswordId) → is_settled (start_change_pin context id) ≡ true
unfolding is_settled
start-is_settled context id = refl

-- Whatever has happened since the change of the PIN was started, once the user cancels, the
-- machine has ended after at most nine further events of those that it waits for: the approval
-- of a state, or the end of a card command with any code.
pub drive-cancel :
    (context : Context) (id : PacePasswordId) (events : List (Environment × ChangePinEvent))
    (env : Environment) (answers : List (Environment × CardReturnCode))
    → 9 ≤ length answers
    → (drive answers (
        step_change_pin env
          (shared cancel)
          (run_change_pin_events events (start_change_pin context id)))).place
      ≡ stopped
drive-cancel context id events env answers long =
    let reached = run_change_pin_events events (start_change_pin context id) in
    let settled =
      run-is_settled events (start_change_pin context id) (start-is_settled context id) in
    drive-stopped answers 9 (step_change_pin env (shared cancel) reached) long (omega arith) (
      cancel-is_closing env reached.place reached.pace.position reached.pace.context
        reached.pace.password_id settled)
