-- ===== src/Workflow/Pace/Passwords.antt =====
-- The passwords in the machine of the PACE channel: where it ends they are cleared.
use ausweis_app.Prelude.{true, false, some, List, [], ◌∷◌, ◌≡◌, refl, arith}
use ausweis_app.Card.PasswordId.{PacePasswordId}
use ausweis_app.Workflow.Context.{Context, Environment, update_status, set_status}
use ausweis_app.Workflow.States.{Signal, fire, run_clear_pace_passwords}
use ausweis_app.Workflow.Pace.{
  State, Position, at, established, aborted, Config, Event, transition, on_user_cancelled, move,
  deliver, enter, react, run_state, handle, approved, dispatch, start, approve, cancel,
  set_password, set_password_of, connection_changed, plug_in_types_changed, step, run_events,
  destroy_pace, clear_pace_passwords_on_error, clear_pace_passwords_before_destroy,
}
use ausweis_app.Workflow.Pace.Cleared.{
  passwords_empty, is_cleared, is_clearing, reset_pace_passwords-passwords_empty,
  on_user_cancelled-cancelled, elsewhere-is_cleared, react-is_cleared, is_done_with,
  react-is_cleared_done,
}

pub approved-position :
    (state : State) (config : Config)
    → config.position ≡ at state
    → (approved state config).position ≡ at state
unfolding approved
approved-position state config e = ground arith

-- The states that do not lead to the end.
dispatch-is_cleared_elsewhere :
    (env : Environment) (state : State) (event : Event) (config : Config)
    → is_clearing state ≡ false
    → config.position ≡ at state
    → is_cleared (dispatch env state event config) ≡ true
unfolding dispatch
dispatch-is_cleared_elsewhere env state approve config h e =
    let ready = approved-position state config e in
    let ran =
      react-is_cleared state (run_state env state (approved state config).context)
        (approved state config) h ready in
    let unchanged = elsewhere-is_cleared state config h e in ground arith
dispatch-is_cleared_elsewhere env state cancel config h e =
    react-is_cleared state
      (on_user_cancelled state (record config.context { workflow_cancelled = true })) config h e
dispatch-is_cleared_elsewhere env state (set_password id password) config h e =
    let given = record config { context = set_password_of id password config.context } in
    let entered = elsewhere-is_cleared state given h e in
    let handled =
      react-is_cleared state
        (handle env state config.password_id (set_password id password) config.context) config h
        e in
    let unchanged = elsewhere-is_cleared state config h e in ground arith
dispatch-is_cleared_elsewhere env state (connection_changed connection) config h e =
    let changed = record config {
      context = record config.context { card_connection = some connection };
    } in
    let new = elsewhere-is_cleared state changed h e in
    let unchanged = elsewhere-is_cleared state config h e in ground arith
dispatch-is_cleared_elsewhere env state plug_in_types_changed config h e =
    let handled =
      react-is_cleared state
        (handle env state config.password_id plug_in_types_changed config.context) config h e in
    let retried = react-is_cleared state (fire Signal.fire_retry, config.context) config h e in
    let unchanged = elsewhere-is_cleared state config h e in ground arith
dispatch-is_cleared_elsewhere env state event config h e =
    let handled =
      react-is_cleared state (handle env state config.password_id event config.context) config h
        e in
    let unchanged = elsewhere-is_cleared state config h e in ground arith

run_clear_pace_passwords-done_with :
    (context : Context) → is_done_with (run_clear_pace_passwords context).1 ≡ true
unfolding run_clear_pace_passwords
run_clear_pace_passwords-done_with context =
    let empty = reset_pace_passwords-passwords_empty context in ground arith

on_user_cancelled-done_with :
    (state : State) (context : Context)
    → is_done_with (on_user_cancelled state (record context { workflow_cancelled = true })).1 ≡ true
on_user_cancelled-done_with state context =
    rw (on_user_cancelled-cancelled state (record context { workflow_cancelled = true })) refl

-- At a clearing state an event changes the position only with the passwords cleared.
dispatch-is_cleared_clear_on_error :
    (env : Environment) (event : Event) (config : Config)
    → config.position ≡ at clear_pace_passwords_on_error
    → is_cleared config ≡ true
    → is_cleared (dispatch env clear_pace_passwords_on_error event config) ≡ true
unfolding dispatch handle run_state react is_cleared
dispatch-is_cleared_clear_on_error env cancel config e h =
    react-is_cleared_done clear_pace_passwords_on_error
      (on_user_cancelled clear_pace_passwords_on_error
        (record config.context { workflow_cancelled = true }))
      config (on_user_cancelled-done_with clear_pace_passwords_on_error config.context)
dispatch-is_cleared_clear_on_error env approve config e h =
    let ready = approved clear_pace_passwords_on_error config in
    let ran =
      react-is_cleared_done clear_pace_passwords_on_error (run_clear_pace_passwords ready.context)
        ready (run_clear_pace_passwords-done_with ready.context) in
    ground arith
dispatch-is_cleared_clear_on_error env event config e h = ground arith

dispatch-is_cleared_clear_before_destroy :
    (env : Environment) (event : Event) (config : Config)
    → config.position ≡ at clear_pace_passwords_before_destroy
    → is_cleared config ≡ true
    → is_cleared (dispatch env clear_pace_passwords_before_destroy event config) ≡ true
unfolding dispatch handle run_state react is_cleared
dispatch-is_cleared_clear_before_destroy env cancel config e h =
    react-is_cleared_done clear_pace_passwords_before_destroy
      (on_user_cancelled clear_pace_passwords_before_destroy
        (record config.context { workflow_cancelled = true }))
      config (on_user_cancelled-done_with clear_pace_passwords_before_destroy config.context)
dispatch-is_cleared_clear_before_destroy env approve config e h =
    let ready = approved clear_pace_passwords_before_destroy config in
    let ran =
      react-is_cleared_done clear_pace_passwords_before_destroy
        (run_clear_pace_passwords ready.context) ready
        (run_clear_pace_passwords-done_with ready.context) in
    ground arith
dispatch-is_cleared_clear_before_destroy env event config e h = ground arith

dispatch-is_cleared_destroy :
    (env : Environment) (event : Event) (config : Config)
    → config.position ≡ at destroy_pace
    → is_cleared config ≡ true
    → is_cleared (dispatch env destroy_pace event config) ≡ true
unfolding dispatch handle run_state react approved is_cleared passwords_empty enter deliver move
    transition on_user_cancelled
dispatch-is_cleared_destroy env cancel config e h =
    react-is_cleared_done destroy_pace
      (on_user_cancelled destroy_pace (record config.context { workflow_cancelled = true })) config
      (on_user_cancelled-done_with destroy_pace config.context)
dispatch-is_cleared_destroy env approve config e h = ground arith
dispatch-is_cleared_destroy env event config e h = ground arith

dispatch-is_cleared :
    (env : Environment) (state : State) (event : Event) (config : Config)
    → config.position ≡ at state
    → is_cleared config ≡ true
    → is_cleared (dispatch env state event config) ≡ true
dispatch-is_cleared env clear_pace_passwords_on_error event config e h =
    dispatch-is_cleared_clear_on_error env event config e h
dispatch-is_cleared env clear_pace_passwords_before_destroy event config e h =
    dispatch-is_cleared_clear_before_destroy env event config e h
dispatch-is_cleared env destroy_pace event config e h =
    dispatch-is_cleared_destroy env event config e h
dispatch-is_cleared env state event config e h =
    dispatch-is_cleared_elsewhere env state event config refl e

step-is_cleared_at :
    (env : Environment) (event : Event) (position : Position) (context : Context)
    (id : PacePasswordId)
    → is_cleared (record { position = position; context = context; password_id = id }) ≡ true
    → is_cleared
        (step env event (record { position = position; context = context; password_id = id }))
      ≡ true
unfolding step
step-is_cleared_at env event (at state) context id h =
    dispatch-is_cleared env state event
      (record { position = at state; context = context; password_id = id }) refl h
step-is_cleared_at env event established context id h = h
step-is_cleared_at env event aborted context id h = h

step-is_cleared :
    (env : Environment) (event : Event) (config : Config)
    → is_cleared config ≡ true
    → is_cleared (step env event config) ≡ true
step-is_cleared env event config h =
    step-is_cleared_at env event config.position config.context config.password_id h

run_events-is_cleared :
    (events : List (Environment × Event)) (config : Config)
    → is_cleared config ≡ true
    → is_cleared (run_events events config) ≡ true
unfolding run_events
run_events-is_cleared [] config h = h
run_events-is_cleared ((env, event) ∷ events) config h =
    run_events-is_cleared events (step env event config) (step-is_cleared env event config h)

start-is_cleared : (context : Context) (id : PacePasswordId) → is_cleared (start context id) ≡ true
unfolding is_cleared
start-is_cleared context id = ground arith

aborted-is_cleared :
    (config : Config)
    → is_cleared config ≡ true
    → config.position ≡ aborted
    → config.context.workflow_cancelled ≡ false
    → passwords_empty config.context ≡ true
unfolding is_cleared
aborted-is_cleared config h e uncancelled = ground arith

-- Whatever events a run of the PACE machine has, if it ends by the abort of the composite state
-- and the user has not cancelled, then neither CAN nor PIN nor PUK is stored any longer.
pub run_events-passwords_empty :
    (events : List (Environment × Event)) (context : Context) (id : PacePasswordId)
    → (run_events events (start context id)).position ≡ aborted
    → (run_events events (start context id)).context.workflow_cancelled ≡ false
    → passwords_empty (run_events events (start context id)).context ≡ true
run_events-passwords_empty events context id e uncancelled =
    aborted-is_cleared (run_events events (start context id))
      (run_events-is_cleared events (start context id) (start-is_cleared context id)) e uncancelled

-- A cancellation of the user in the state that clears the passwords on an error leaves the
-- composite state by an abort with CAN, PIN and PUK as they were.
pub step-cancel :
    (env : Environment) (context : Context) (id : PacePasswordId) (config : Config)
    → config
      ≡ step env cancel (record {
        position = at clear_pace_passwords_on_error;
        context = context;
        password_id = id;
      })
    → (config.position ≡ aborted)
      × (config.context.can ≡ context.can)
      × (config.context.pin ≡ context.pin)
      × (config.context.puk ≡ context.puk)
unfolding step dispatch react enter deliver move transition on_user_cancelled update_status
    set_status
step-cancel env context id config e = ground arith
