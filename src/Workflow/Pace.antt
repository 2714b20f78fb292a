-- ===== src/Workflow/Pace.antt =====
-- workflows/base/states/CompositeStatePace.cpp: the machine of the PACE channel, with what
-- workflows/base/states/AbstractState.cpp does on entry, on exit, on approval and on cancellation.
-- A handler runs only after the state was approved, since `run` connects it.
pub mod Cleared
pub mod Passwords
pub mod Established
use ausweis_app.Prelude.{
  Bool, true, false, not, ◌&&◌, Option, none, some, List, [], ◌∷◌, if◌then◌else◌, ◌≡◌,
}
use ausweis_app.Bytes.{Bytes}
use ausweis_app.Card.PasswordId.{PacePasswordId}
use ausweis_app.Card.ReturnCode.{CardReturnCode, GlobalStatus, is_error}
use ausweis_app.Workflow.Reader.{ReaderInfo, CardConnection}
use ausweis_app.Workflow.Context.{Context, Environment, update_status, set_last_pace_result}
use ausweis_app.Workflow.States.{
  Signal, Reaction, fire, call, wait, unreachable, destroy_pace_channel, Answer,
  run_maintain_card_connection, run_clear_pace_passwords, run_unfortunate_card_position,
  run_enter_pace_password, on_reader_info_changed, on_card_inserted, on_connect_done,
  on_reader_removed, run_update_retry_counter, on_update_retry_counter_done,
}
use ausweis_app.Workflow.Establish.{
  run_verify_retry_counter, run_prepare_pace, run_establish_pace_channel,
  on_establish_connection_done,
}

pub data State : Type 0 where
  maintain_card_connection clear_pace_passwords_on_error select_reader connect_card
        update_retry_counter verify_retry_counter prepare_pace unfortunate_card_position
        enter_pace_password establish_pace_channel clear_pace_passwords_before_destroy
        destroy_pace :
      State

-- Inside the composite state, or left by one of its signals.
pub data Position : Type 0 where
  at : State → Position
  established aborted : Position

abbrev pub initial_state : State
initial_state = maintain_card_connection

-- The table of transitions; `none` where a signal has none.
unfoldable pub transition : State → Signal → Option Position
transition maintain_card_connection Signal.fire_continue = some (at verify_retry_counter)
transition maintain_card_connection Signal.fire_no_card_connection = some (at select_reader)
transition maintain_card_connection Signal.fire_force_update_retry_counter =
    some (at update_retry_counter)
transition maintain_card_connection Signal.fire_abort = some (at clear_pace_passwords_on_error)
transition clear_pace_passwords_on_error Signal.fire_continue = some aborted
transition clear_pace_passwords_on_error Signal.fire_abort = some aborted
transition select_reader Signal.fire_retry = some (at select_reader)
transition select_reader Signal.fire_continue = some (at connect_card)
transition select_reader Signal.fire_abort = some (at maintain_card_connection)
transition connect_card Signal.fire_retry = some (at select_reader)
transition connect_card Signal.fire_continue = some (at update_retry_counter)
transition connect_card Signal.fire_abort = some (at maintain_card_connection)
transition update_retry_counter Signal.fire_continue = some (at verify_retry_counter)
transition update_retry_counter Signal.fire_abort = some (at maintain_card_connection)
transition verify_retry_counter Signal.fire_continue = some (at prepare_pace)
transition verify_retry_counter Signal.fire_abort = some (at maintain_card_connection)
transition prepare_pace Signal.fire_enter_pace_password = some (at enter_pace_password)
transition prepare_pace Signal.fire_establish_pace_channel = some (at establish_pace_channel)
transition prepare_pace Signal.fire_continue = some (at maintain_card_connection)
transition prepare_pace Signal.fire_abort = some (at maintain_card_connection)
transition enter_pace_password Signal.fire_continue = some (at establish_pace_channel)
transition enter_pace_password Signal.fire_abort = some (at maintain_card_connection)
transition establish_pace_channel Signal.fire_continue = some (at maintain_card_connection)
transition establish_pace_channel Signal.fire_pace_channel_established = some established
transition establish_pace_channel Signal.fire_pace_channel_inoperative =
    some (at clear_pace_passwords_before_destroy)
transition establish_pace_channel Signal.fire_abort_and_unfortunate_card_position =
    some (at unfortunate_card_position)
transition establish_pace_channel Signal.fire_abort = some (at maintain_card_connection)
transition unfortunate_card_position Signal.fire_continue = some (at maintain_card_connection)
transition unfortunate_card_position Signal.fire_abort = some (at maintain_card_connection)
transition clear_pace_passwords_before_destroy Signal.fire_continue = some (at destroy_pace)
transition clear_pace_passwords_before_destroy Signal.fire_abort = some (at destroy_pace)
transition destroy_pace Signal.fire_continue = some (at maintain_card_connection)
transition destroy_pace Signal.fire_abort = some aborted
transition _ _ = none

-- The position, the context, and `mPasswordId` of StateEstablishPaceChannel.
pub record Config : Type 0 where
  pub position : Position
  pub context : Context
  pub password_id : PacePasswordId

-- The composite state on entry.
abbrev pub start : Context → PacePasswordId → Config
start context id = record { position = at initial_state; context = context; password_id = id }

-- `AbstractState::onUserCancelled`, with what StateEstablishPaceChannel does before it.
unfoldable pub on_user_cancelled : State → Context → Answer
on_user_cancelled state context =
    let noted : Context = elim state [
      | establish_pace_channel ↦ set_last_pace_result CardReturnCode.cancellation_by_user context
      | _ ↦ context
    ] in
    (
      fire Signal.fire_abort,
      update_status GlobalStatus.workflow_cancellation_by_user
          (record noted { workflow_cancelled_in_state = true }),
    )

-- `onExit` and the move.
unfoldable pub move : Position → Config → Config
move position config = record config {
  position = position;
  context = record config.context { state_approved = false };
}

-- A signal in a state.
unfoldable pub deliver : State → Signal → Config → Config
unfolding transition move
deliver state signal config = elim (transition state signal) [
  | none ↦ config
  | some position ↦ move position config
]

-- `onEntry`: a cancellation that no state has seen yet.
unfoldable pub enter : Config → Config
unfolding deliver on_user_cancelled
enter config = elim config.position [
  | established ↦ config
  | aborted ↦ config
  | at state ↦
      if config.context.workflow_cancelled && not config.context.workflow_cancelled_in_state
      then deliver state Signal.fire_abort
          (record config { context = (on_user_cancelled state config.context).1 })
      else config
]

-- The answer of a state's function.
unfoldable pub react : State → Answer → Config → Config
unfolding enter deliver
react state answer config =
    let answered = record config { context = answer.1 } in
    elim answer.0 [
      | fire signal ↦ enter (deliver state signal answered)
      | call command ↦ answered
      | wait ↦ answered
      | unreachable ↦ answered
    ]

-- `run` of each state.
unfoldable pub run_state : Environment → State → Context → Answer
run_state env maintain_card_connection context = run_maintain_card_connection context
run_state env clear_pace_passwords_on_error context = run_clear_pace_passwords context
run_state env select_reader context = on_reader_info_changed env context
run_state env connect_card context = on_card_inserted env context
run_state env update_retry_counter context = run_update_retry_counter context
run_state env verify_retry_counter context = run_verify_retry_counter context
run_state env prepare_pace context = run_prepare_pace context
run_state env unfortunate_card_position context = run_unfortunate_card_position context
run_state env enter_pace_password context = run_enter_pace_password context
run_state env establish_pace_channel context = run_establish_pace_channel context
run_state env clear_pace_passwords_before_destroy context = run_clear_pace_passwords context
run_state env destroy_pace context = (call destroy_pace_channel, context)

pub data Event : Type 0 where
  -- The user interface approves the state, cancels, or sets a password.
  approve cancel : Event
  set_password : PacePasswordId → Bytes → Event
  -- The reader manager reports a change.
  reader_info_changed : Event
  card_inserted : Event
  reader_removed : (name : Bytes) → Event
  plug_in_types_changed : Event
  -- A card command has ended, or the connection has learned of its reader.
  connect_done : Option CardConnection → Event
  retry_counter_done establish_done : CardReturnCode → Event
  destroy_done : Event
  connection_changed : CardConnection → Event

abbrev pub set_password_of : PacePasswordId → Bytes → Context → Context
set_password_of PacePasswordId.unknown password context = context
set_password_of PacePasswordId.pace_mrz password context = context
set_password_of PacePasswordId.pace_can password context = record context { can = password }
set_password_of PacePasswordId.pace_pin password context = record context { pin = password }
set_password_of PacePasswordId.pace_puk password context = record context { puk = password }

-- The handlers that `run` connects.
unfoldable pub handle : Environment → State → PacePasswordId → Event → Context → Answer
handle env select_reader id reader_info_changed context = on_reader_info_changed env context
handle env connect_card id card_inserted context = on_card_inserted env context
handle env connect_card id (reader_removed name) context = on_reader_removed name context
handle env connect_card id (connect_done connection) context =
    on_connect_done env connection context
handle env update_retry_counter id (retry_counter_done code) context =
    on_update_retry_counter_done code context
handle env establish_pace_channel id (establish_done code) context =
    on_establish_connection_done env.now id code context
handle env destroy_pace id destroy_done context = (fire Signal.fire_continue, context)
handle env state id event context = (wait, context)

-- The context that `run` is given, and `mPasswordId`, which StateEstablishPaceChannel takes from it.
unfoldable pub approved : State → Config → Config
approved state config =
    let ready = record config { context = record config.context { state_approved = true } } in
    elim state [
      | establish_pace_channel ↦
          if is_error config.context.status
          then ready
          else record ready { password_id = config.context.establish_pace_channel_type }
      | _ ↦ ready
    ]

-- An event in a state. The user interface sets a password only while it is asked for one.
unfoldable pub dispatch : Environment → State → Event → Config → Config
unfolding approved react run_state on_user_cancelled handle
dispatch env state approve config =
    if config.context.state_approved
    then config
    else react state (run_state env state (approved state config).context) (approved state config)
dispatch env state cancel config =
    react state (on_user_cancelled state (record config.context { workflow_cancelled = true }))
      config
dispatch env enter_pace_password (set_password id password) config = record config {
  context = set_password_of id password config.context;
}
dispatch env select_reader plug_in_types_changed config =
    react select_reader (fire Signal.fire_retry, config.context) config
dispatch env connect_card plug_in_types_changed config =
    react connect_card (fire Signal.fire_retry, config.context) config
dispatch env state (connection_changed connection) config = elim config.context.card_connection [
  | none ↦ config
  | some old ↦ record config {
    context = record config.context { card_connection = some connection };
  }
]
dispatch env state event config =
    if config.context.state_approved
    then react state (handle env state config.password_id event config.context) config
    else config

unfoldable pub step : Environment → Event → Config → Config
unfolding dispatch
step env event config = elim config.position [
  | at state ↦ dispatch env state event config
  | established ↦ config
  | aborted ↦ config
]

-- A run, from the first event to the last.
unfoldable pub run_events : List (Environment × Event) → Config → Config
unfolding step
run_events [] config = config
run_events ((env, event) ∷ events) config = run_events events (step env event config)
