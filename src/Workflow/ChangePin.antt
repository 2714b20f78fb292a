-- ===== src/Workflow/ChangePin.antt =====
-- workflows/base/controller/ChangePinController.cpp: the machine of the change of the PIN, around the
-- one of the PACE channel, with StatePrepareChangePin, StateEnterNewPacePin, StateChangePin,
-- StateCleanUpReaderManager and FinalState. The reader manager's scan and the message of success are
-- left out.
pub mod Ending
pub mod Settled
pub mod Cancelled
pub mod Erased
mod Examples
use ausweis_app.Prelude.{
  Bool, true, false, not, ◌&&◌, Option, none, some, List, [], ◌∷◌, if◌then◌else◌, is_empty,
}
use ausweis_app.Bytes.{Bytes}
use ausweis_app.Card.PasswordId.{PacePasswordId}
use ausweis_app.Card.ReturnCode.{CardReturnCode, GlobalStatus, to_global_status}
use ausweis_app.Workflow.Context.{
  Context, Environment, update_status, set_last_pace_result, reset_card_connection,
}
use ausweis_app.Workflow.States.{
  Signal, Reaction, fire, call, wait, unreachable, Answer, CardCommand, destroy_pace_channel,
  update_retry_counter, run_clear_pace_passwords, run_update_retry_counter,
  on_update_retry_counter_done,
}
use ausweis_app.Workflow.Pace as Pace
use ausweis_app.Workflow.Pace.{
  Config, Position, at, established, aborted, Event, approve, cancel, retry_counter_done,
  destroy_done, connection_changed,
}

pub data ChangePinState : Type 0 where
  prepare_change_pin enter_new_pace_pin change_pin clear_pace_passwords destroy_pace
        update_retry_counter_final clean_up_reader_manager final :
      ChangePinState

-- Within the composite state of PACE, in a state, or at the `QFinalState` that ends the machine.
pub data Place : Type 0 where
  in_pace stopped : Place
  in_state : ChangePinState → Place

pub data ChangePinSignal : Type 0 where
  continue abort enter_pin invalid_pin : ChangePinSignal

-- The table of transitions outside the composite state. FinalState adds its own in `run`, so that a
-- cancellation before it finds none.
unfoldable pub change_pin_transition : ChangePinState → ChangePinSignal → Option Place
change_pin_transition prepare_change_pin continue = some (in_state change_pin)
change_pin_transition prepare_change_pin enter_pin = some (in_state enter_new_pace_pin)
change_pin_transition prepare_change_pin abort = some in_pace
change_pin_transition enter_new_pace_pin continue = some (in_state change_pin)
change_pin_transition enter_new_pace_pin abort = some in_pace
change_pin_transition change_pin continue = some (in_state destroy_pace)
change_pin_transition change_pin invalid_pin = some (in_state clear_pace_passwords)
change_pin_transition change_pin abort = some in_pace
change_pin_transition destroy_pace continue = some (in_state clear_pace_passwords)
change_pin_transition destroy_pace abort = some (in_state clear_pace_passwords)
change_pin_transition clear_pace_passwords continue = some (in_state update_retry_counter_final)
change_pin_transition clear_pace_passwords abort = some (in_state update_retry_counter_final)
change_pin_transition update_retry_counter_final continue = some (in_state clean_up_reader_manager)
change_pin_transition update_retry_counter_final abort = some (in_state clean_up_reader_manager)
change_pin_transition clean_up_reader_manager continue = some (in_state final)
change_pin_transition clean_up_reader_manager abort = some (in_state final)
change_pin_transition final continue = some stopped
change_pin_transition _ _ = none

-- What a state does: fire a signal, or call a card command and wait.
pub data ChangePinReaction : Type 0 where
  emit : ChangePinSignal → ChangePinReaction
  call_set_eid_pin : (pin : Bytes) → ChangePinReaction
  call_card : CardCommand → ChangePinReaction
  idle : ChangePinReaction

-- The states that this machine shares with the one of PACE.
abbrev pub of_answer : Answer → ChangePinReaction × Context
of_answer (fire signal, context) = elim signal [
  | Signal.fire_continue ↦ (emit continue, context)
  | Signal.fire_abort ↦ (emit abort, context)
  | _ ↦ (idle, context)
]
of_answer (call command, context) = (call_card command, context)
of_answer (wait, context) = (idle, context)
of_answer (unreachable, context) = (idle, context)

unfoldable pub run_prepare_change_pin : Context → ChangePinReaction × Context
run_prepare_change_pin context =
    if is_empty context.new_pin then (emit enter_pin, context) else (emit continue, context)

unfoldable pub run_change_pin : Context → ChangePinReaction × Context
run_change_pin context = (call_set_eid_pin context.new_pin, context)

unfoldable pub on_set_eid_pin_done : CardReturnCode → Context → ChangePinReaction × Context
unfolding set_last_pace_result update_status
on_set_eid_pin_done code context =
    let noted = set_last_pace_result code context in
    let status = to_global_status code in
    elim code [
      | CardReturnCode.ok ↦ (emit continue, noted)
      | CardReturnCode.cancellation_by_user ↦ (emit abort, update_status status noted)
      | CardReturnCode.new_pin_mismatch ↦ (emit invalid_pin, update_status status noted)
      | _ ↦ (emit abort, noted)
    ]

unfoldable pub run_clean_up_reader_manager : Context → ChangePinReaction × Context
run_clean_up_reader_manager context = elim context.card_connection [
  | none ↦ (emit continue, context)
  | some connection ↦ (emit continue, reset_card_connection context)
]

unfoldable pub run_change_pin_state : ChangePinState → Context → ChangePinReaction × Context
run_change_pin_state prepare_change_pin context = run_prepare_change_pin context
run_change_pin_state enter_new_pace_pin context = (emit continue, context)
run_change_pin_state change_pin context = run_change_pin context
run_change_pin_state clear_pace_passwords context = of_answer (run_clear_pace_passwords context)
run_change_pin_state destroy_pace context = (call_card destroy_pace_channel, context)
run_change_pin_state update_retry_counter_final context =
    of_answer (run_update_retry_counter context)
run_change_pin_state clean_up_reader_manager context = run_clean_up_reader_manager context
run_change_pin_state final context = (emit continue, context)

pub data ChangePinEvent : Type 0 where
  -- An event that the states of PACE know too.
  shared : Event → ChangePinEvent
  -- The user interface sets the new PIN, which it does while it is asked for it.
  set_new_pin : Bytes → ChangePinEvent
  set_eid_pin_done : CardReturnCode → ChangePinEvent

-- The place, and the machine of PACE with the context.
pub record ChangePinConfig : Type 0 where
  pub place : Place
  pub pace : Config

abbrev pub with_context : Context → ChangePinConfig → ChangePinConfig
with_context context config = record config { pace = record config.pace { context = context } }

-- `AbstractState::onUserCancelled`
unfoldable pub cancelled_in_state : Context → Context
unfolding update_status
cancelled_in_state context =
    update_status GlobalStatus.workflow_cancellation_by_user
      (record context { workflow_cancelled_in_state = true })

-- `onExit` of the old state and `onEntry` of the composite state of PACE.
unfoldable pub go_to_pace : ChangePinConfig → ChangePinConfig
go_to_pace config = record config {
  place = in_pace;
  pace = Pace.enter (record config.pace {
    position = at Pace.initial_state;
    context = record config.pace.context { state_approved = false };
  });
}

unfoldable pub go_to : Place → ChangePinConfig → ChangePinConfig
unfolding go_to_pace
go_to in_pace config = go_to_pace config
go_to stopped config =
    with_context (record config.pace.context { state_approved = false })
      (record config { place = stopped })
go_to (in_state state) config =
    with_context (record config.pace.context { state_approved = false })
      (record config { place = in_state state })

unfoldable pub deliver_signal : ChangePinState → ChangePinSignal → ChangePinConfig → ChangePinConfig
unfolding change_pin_transition go_to
deliver_signal state signal config = elim (change_pin_transition state signal) [
  | none ↦ config
  | some place ↦ go_to place config
]

-- `onEntry` of a state: a cancellation that no state has seen yet.
unfoldable pub enter_state : ChangePinConfig → ChangePinConfig
unfolding deliver_signal cancelled_in_state
enter_state config = elim config.place [
  | in_pace ↦ config
  | stopped ↦ config
  | in_state state ↦
      if config.pace.context.workflow_cancelled
        && not config.pace.context.workflow_cancelled_in_state
      then deliver_signal state abort (with_context (cancelled_in_state config.pace.context) config)
      else config
]

unfoldable pub react_to :
    ChangePinState → ChangePinReaction × Context → ChangePinConfig → ChangePinConfig
unfolding enter_state deliver_signal
react_to state answer config =
    let answered = with_context answer.1 config in
    elim answer.0 [
      | emit signal ↦ enter_state (deliver_signal state signal answered)
      | call_set_eid_pin pin ↦ answered
      | call_card command ↦ answered
      | idle ↦ answered
    ]

-- The handlers that `run` connects.
unfoldable pub handle_event :
    ChangePinState → ChangePinEvent → Context → ChangePinReaction × Context
handle_event change_pin (set_eid_pin_done code) context = on_set_eid_pin_done code context
handle_event destroy_pace (shared destroy_done) context = (emit continue, context)
handle_event update_retry_counter_final (shared (retry_counter_done code)) context =
    of_answer (on_update_retry_counter_done code context)
handle_event state event context = (idle, context)

-- An event in a state outside the composite one.
unfoldable pub dispatch_event : ChangePinState → ChangePinEvent → ChangePinConfig → ChangePinConfig
unfolding react_to run_change_pin_state handle_event cancelled_in_state
dispatch_event state (shared approve) config =
    let context = config.pace.context in
    let ready = record context { state_approved = true } in
    if context.state_approved
    then config
    else react_to state (run_change_pin_state state ready) config
dispatch_event state (shared cancel) config =
    react_to state
      (emit abort, cancelled_in_state (record config.pace.context { workflow_cancelled = true }))
      config
dispatch_event state (shared (connection_changed connection)) config =
    elim config.pace.context.card_connection [
      | none ↦ config
      | some old ↦
          with_context (record config.pace.context { card_connection = some connection }) config
    ]
dispatch_event enter_new_pace_pin (set_new_pin pin) config =
    with_context (record config.pace.context { new_pin = pin }) config
dispatch_event state event config =
    if config.pace.context.state_approved
    then react_to state (handle_event state event config.pace.context) config
    else config

-- The signals of the composite state.
unfoldable pub leave_pace : ChangePinConfig → ChangePinConfig
unfolding go_to enter_state
leave_pace config = elim config.pace.position [
  | at state ↦ config
  | established ↦ enter_state (go_to (in_state prepare_change_pin) config)
  | aborted ↦ enter_state (go_to (in_state clear_pace_passwords) config)
]

unfoldable pub step_change_pin : Environment → ChangePinEvent → ChangePinConfig → ChangePinConfig
unfolding leave_pace dispatch_event
step_change_pin env event config = elim config.place [
  | stopped ↦ config
  | in_state state ↦ dispatch_event state event config
  | in_pace ↦ elim event [
    | shared inner ↦ leave_pace (record config { pace = Pace.step env inner config.pace })
    | set_new_pin pin ↦ config
    | set_eid_pin_done code ↦ config
  ]
]

unfoldable pub run_change_pin_events :
    List (Environment × ChangePinEvent) → ChangePinConfig → ChangePinConfig
unfolding step_change_pin
run_change_pin_events [] config = config
run_change_pin_events ((env, event) ∷ events) config =
    run_change_pin_events events (step_change_pin env event config)

abbrev pub start_change_pin : Context → PacePasswordId → ChangePinConfig
start_change_pin context id = record { place = in_pace; pace = Pace.start context id }
