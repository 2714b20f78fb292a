-- ===== src/Workflow/ChangePin/Erased.antt =====
-- The passwords when the change of the PIN has ended.
use ausweis_app.Prelude.{
  Bool, true, false, not, ◌&&◌, ◌||◌, ◌≡◌, refl, ap, ◌∙◌, Option, none, some, List, [], ◌∷◌,
  is_empty, arith,
}
use ausweis_app.Card.PasswordId.{PacePasswordId}
use ausweis_app.Workflow.Context.{
  Context, Environment, update_status, set_status, reset_card_connection, reset_pace_passwords,
}
use ausweis_app.Workflow.States.{
  run_clear_pace_passwords, run_update_retry_counter, on_update_retry_counter_done,
}
use ausweis_app.Workflow.Pace as Pace
use ausweis_app.Workflow.Pace.{
  Config, State, Position, at, established, aborted, approve, cancel, retry_counter_done,
  destroy_done,
}
use ausweis_app.Workflow.ChangePin.{
  ChangePinState, Place, in_pace, stopped, in_state, ChangePinEvent, shared, set_new_pin,
  set_eid_pin_done, ChangePinConfig, ChangePinReaction, prepare_change_pin, enter_new_pace_pin,
  change_pin, clear_pace_passwords, update_retry_counter_final, clean_up_reader_manager, final,
  with_context, ChangePinSignal, emit, abort, call_set_eid_pin, call_card, idle,
  on_set_eid_pin_done, change_pin_transition, run_change_pin_state, run_clean_up_reader_manager,
  cancelled_in_state, go_to_pace, go_to, deliver_signal, enter_state, react_to, handle_event,
  dispatch_event, leave_pace, step_change_pin, run_change_pin_events, start_change_pin,
}
use ausweis_app.Workflow.ChangePin.Ending.{at_place}
use ausweis_app.Workflow.Reader.{CardConnection}
use ausweis_app.Workflow.Context.{Kind}
use ausweis_app.Workflow.Pace.Cleared.{passwords_empty}

-- No password is stored, nor the new PIN of a change of the PIN.
unfoldable pub is_all_empty : Context → Bool
is_all_empty context = passwords_empty context && elim context.kind [
  | Kind.auth can_allowed chat description ↦ true
  | Kind.change_pin transport ↦ is_empty context.new_pin
]

unfoldable pub erased : Context → Bool
unfolding is_all_empty
erased context = context.workflow_cancelled || is_all_empty context

is_past : ChangePinState → Bool
is_past state = elim state [
  | update_retry_counter_final ↦ true
  | clean_up_reader_manager ↦ true
  | final ↦ true
  | _ ↦ false
]

is_clearing : ChangePinState → Bool
unfolding is_past
is_clearing state = elim state [ clear_pace_passwords ↦ true | other ↦ is_past other ]

is_erased : ChangePinConfig → Bool
unfolding is_past
is_erased config = elim config.place [
  | in_pace ↦ true
  | stopped ↦ erased config.pace.context
  | in_state state ↦ not (is_past state) || erased config.pace.context
]

erased_fresh :
    (context : Context) → erased (record context { state_approved = false }) ≡ erased context
unfolding erased is_all_empty passwords_empty
erased_fresh context = refl

erased_cancelled :
    (context : Context)
    → context.workflow_cancelled ≡ true
    → erased (cancelled_in_state context) ≡ true
unfolding erased cancelled_in_state update_status set_status
erased_cancelled context h = ground (arith, h)

go_to-is_erased :
    (place : Place) (config : ChangePinConfig)
    → erased config.pace.context ≡ true
    → is_erased (go_to place config) ≡ true
unfolding is_erased go_to go_to_pace
go_to-is_erased in_pace config h = refl
go_to-is_erased stopped config h = erased_fresh config.pace.context ∙ h
go_to-is_erased (in_state state) config h =
    let fresh = erased_fresh config.pace.context in ground (arith, h, fresh)

-- A signal of a state, once its answer is stored.
deliver_signal-is_erased :
    (state : ChangePinState) (signal : ChangePinSignal) (config : ChangePinConfig)
    → config.place ≡ in_state state
    → (is_clearing state ≡ true → erased config.pace.context ≡ true)
    → is_erased (deliver_signal state signal config) ≡ true
unfolding is_clearing is_past is_erased deliver_signal change_pin_transition go_to go_to_pace
deliver_signal-is_erased state signal config e h =
    let fresh = erased_fresh config.pace.context in ground (arith, e, h, fresh)

cancel-is_erased :
    (state : ChangePinState) (config : ChangePinConfig)
    → config.place ≡ in_state state
    → config.pace.context.workflow_cancelled ≡ true
    → is_erased
        (deliver_signal state abort (with_context (cancelled_in_state config.pace.context) config))
      ≡ true
cancel-is_erased state config e h =
    deliver_signal-is_erased state abort
      (with_context (cancelled_in_state config.pace.context) config) e
      (λ clearing. erased_cancelled config.pace.context h)

enter_state-is_erased :
    (place : Place) (pace : Config)
    → is_erased (record { place = place; pace = pace }) ≡ true
    → is_erased (enter_state (record { place = place; pace = pace })) ≡ true
unfolding enter_state
enter_state-is_erased in_pace pace h = h
enter_state-is_erased stopped pace h = h
enter_state-is_erased (in_state state) pace h =
    let cancelled = cancel-is_erased state (record { place = in_state state; pace = pace }) refl in
    ground (arith, h, cancelled)

-- What an answer needs of its context.
is_fine : ChangePinState → ChangePinReaction × Context → Bool
unfolding is_clearing is_past
is_fine state answer = elim answer.0 [
  | emit signal ↦ not (is_clearing state) || erased answer.1
  | call_set_eid_pin pin ↦ not (is_past state) || erased answer.1
  | call_card command ↦ not (is_past state) || erased answer.1
  | idle ↦ not (is_past state) || erased answer.1
]

stored-is_erased :
    (state : ChangePinState) (context : Context) (config : ChangePinConfig)
    → config.place ≡ in_state state
    → (not (is_past state) || erased context) ≡ true
    → is_erased (with_context context config) ≡ true
unfolding is_erased
stored-is_erased state context config e h = ground (arith, e, h)

implied : {a b : Bool} → (not a || b) ≡ true → a ≡ true → b ≡ true
implied h is_so = ground (arith, h, is_so)

react_to-is_erased :
    (state : ChangePinState) (reaction : ChangePinReaction) (context : Context)
    (config : ChangePinConfig)
    → config.place ≡ in_state state
    → is_fine state (reaction, context) ≡ true
    → is_erased (react_to state (reaction, context) config) ≡ true
unfolding react_to is_fine
react_to-is_erased state (emit signal) context config e h =
    let delivered = deliver_signal state signal (with_context context config) in
    enter_state-is_erased delivered.place delivered.pace
      (deliver_signal-is_erased state signal (with_context context config) e (implied h))
react_to-is_erased state (call_set_eid_pin pin) context config e h =
    stored-is_erased state context config e h
react_to-is_erased state (call_card command) context config e h =
    stored-is_erased state context config e h
react_to-is_erased state idle context config e h = stored-is_erased state context config e h

reset-erased : (context : Context) → erased (reset_pace_passwords context) ≡ true
unfolding erased is_all_empty reset_pace_passwords passwords_empty
reset-erased context = ground arith

erased_approved :
    (context : Context) → erased (record context { state_approved = true }) ≡ erased context
unfolding erased is_all_empty passwords_empty
erased_approved context = refl

erased_connection :
    (context : Context) (connection : Option CardConnection)
    → erased (record context { card_connection = connection }) ≡ erased context
unfolding erased is_all_empty passwords_empty
erased_connection context connection = refl

past_erased :
    (state : ChangePinState) (config : ChangePinConfig)
    → config.place ≡ in_state state
    → is_erased config ≡ true
    → (not (is_past state) || erased config.pace.context) ≡ true
unfolding is_erased
past_erased state config e h = ground (arith, e, h)

run-is_fine :
    (state : ChangePinState) (context : Context)
    → (not (is_past state) || erased context) ≡ true
    → is_fine state (run_change_pin_state state context) ≡ true
unfolding is_fine is_past is_clearing run_change_pin_state run_clear_pace_passwords
    run_update_retry_counter run_clean_up_reader_manager reset_card_connection
run-is_fine prepare_change_pin context h = ground (arith, h)
run-is_fine clear_pace_passwords context h = ground (arith, reset-erased context)
run-is_fine clean_up_reader_manager context h =
    let reset = erased_connection context none in ground (arith, h, reset)
run-is_fine state context h = ground (arith, h)

handle-is_fine :
    (state : ChangePinState) (event : ChangePinEvent) (context : Context)
    → (not (is_past state) || erased context) ≡ true
    → is_fine state (handle_event state event context) ≡ true
unfolding is_fine is_past is_clearing handle_event on_update_retry_counter_done
    reset_card_connection on_set_eid_pin_done
handle-is_fine change_pin event context h = ground (arith, h)
handle-is_fine update_retry_counter_final event context h =
    let reset = erased_connection context none in ground (arith, h, reset)
handle-is_fine state event context h = ground (arith, h)

cancelled-is_fine :
    (state : ChangePinState) (context : Context)
    → is_fine state (emit abort, cancelled_in_state (record context { workflow_cancelled = true }))
      ≡ true
unfolding is_fine
cancelled-is_fine state context =
    let gone = erased_cancelled (record context { workflow_cancelled = true }) refl in
    ground (arith, gone)

dispatch_event-is_erased :
    (state : ChangePinState) (event : ChangePinEvent) (config : ChangePinConfig)
    → config.place ≡ in_state state
    → is_erased config ≡ true
    → is_erased (dispatch_event state event config) ≡ true
unfolding dispatch_event is_past
dispatch_event-is_erased state (shared approve) config e h =
    let ready : Context = record config.pace.context { state_approved = true } in
    let answer = run_change_pin_state state ready in
    let fine = run-is_fine state ready (
      ap (λ b. not (is_past state) || b) (erased_approved config.pace.context)
      ∙ past_erased state config e h) in
    let reacted = react_to-is_erased state answer.0 answer.1 config e fine in
    ground (arith, h, reacted)
dispatch_event-is_erased state (shared cancel) config e h =
    react_to-is_erased state (emit abort)
      (cancelled_in_state (record config.pace.context { workflow_cancelled = true })) config e
      (cancelled-is_fine state config.pace.context)
dispatch_event-is_erased state (shared (Pace.connection_changed connection)) config e h =
    let context : Context = record config.pace.context { card_connection = some connection } in
    let stored = stored-is_erased state context config e (
      ap (λ b. not (is_past state) || b) (erased_connection config.pace.context (some connection))
      ∙ past_erased state config e h) in
    ground (arith, h, stored)
dispatch_event-is_erased enter_new_pace_pin (set_new_pin pin) config e h =
    stored-is_erased enter_new_pace_pin (record config.pace.context { new_pin = pin }) config e refl
dispatch_event-is_erased state event config e h =
    let answer = handle_event state event config.pace.context in
    let fine = handle-is_fine state event config.pace.context (past_erased state config e h) in
    let reacted = react_to-is_erased state answer.0 answer.1 config e fine in
    ground (arith, h, reacted)

leave_pace-is_erased :
    (position : Position) (context : Context) (id : PacePasswordId)
    → is_erased (leave_pace (at_place in_pace position context id)) ≡ true
unfolding leave_pace go_to is_erased is_past
leave_pace-is_erased (at state) context id = refl
leave_pace-is_erased established context id =
    let left : Config = record {
      position = established;
      context = record context { state_approved = false };
      password_id = id;
    } in
    enter_state-is_erased (in_state prepare_change_pin) left refl
leave_pace-is_erased aborted context id =
    let left : Config = record {
      position = aborted;
      context = record context { state_approved = false };
      password_id = id;
    } in
    enter_state-is_erased (in_state clear_pace_passwords) left refl

step-is_erased :
    (env : Environment) (event : ChangePinEvent) (place : Place) (pace : Config)
    → is_erased (record { place = place; pace = pace }) ≡ true
    → is_erased (step_change_pin env event (record { place = place; pace = pace })) ≡ true
unfolding step_change_pin
step-is_erased env event stopped pace h = h
step-is_erased env (shared inner) in_pace pace h =
    let stepped = Pace.step env inner pace in
    leave_pace-is_erased stepped.position stepped.context stepped.password_id
step-is_erased env (set_new_pin pin) in_pace pace h = h
step-is_erased env (set_eid_pin_done code) in_pace pace h = h
step-is_erased env event (in_state state) pace h =
    dispatch_event-is_erased state event (record { place = in_state state; pace = pace }) refl h

run-is_erased :
    (events : List (Environment × ChangePinEvent)) (config : ChangePinConfig)
    → is_erased config ≡ true
    → is_erased (run_change_pin_events events config) ≡ true
unfolding run_change_pin_events
run-is_erased [] config h = h
run-is_erased ((env, event) ∷ events) config h =
    run-is_erased events (step_change_pin env event config)
      (step-is_erased env event config.place config.pace h)

stopped_erased :
    (config : ChangePinConfig)
    → config.place ≡ stopped
    → is_erased config ≡ true
    → config.pace.context.workflow_cancelled ≡ false
    → is_all_empty config.pace.context ≡ true
unfolding is_erased erased
stopped_erased config e h flag = ground (arith, e, h, flag)

-- Whatever events a change of the PIN has, if its machine has ended and the user has not
-- cancelled, then neither CAN nor PIN nor PUK is stored any longer, nor, in a context for a
-- change of the PIN, the new PIN.
pub run_change_pin_events-is_all_empty :
    (context : Context) (id : PacePasswordId) (events : List (Environment × ChangePinEvent))
    → (run_change_pin_events events (start_change_pin context id)).place ≡ stopped
    → (run_change_pin_events events (start_change_pin context id)).pace.context.workflow_cancelled
      ≡ false
    → is_all_empty (run_change_pin_events events (start_change_pin context id)).pace.context ≡ true
unfolding is_erased
run_change_pin_events-is_all_empty context id events e flag =
    let ended = run_change_pin_events events (start_change_pin context id) in
    stopped_erased ended e (run-is_erased events (start_change_pin context id) refl) flag
