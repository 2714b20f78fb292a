-- ===== src/Workflow/ChangePin/Settled.antt =====
-- What holds between two events of the machine of the change of the PIN.
use ausweis_app.Prelude.{
  Bool, true, false, not, ◌&&◌, ◌≡◌, refl, Option, none, some, List, [], ◌∷◌, if◌then◌else◌, arith,
}
use ausweis_app.Workflow.Context.{Context, Environment, update_status, set_status}
use ausweis_app.Workflow.Pace as Pace
use ausweis_app.Workflow.Pace.{
  Config, State, Position, at, established, aborted, approve, cancel, retry_counter_done,
  destroy_done,
}
use ausweis_app.Workflow.ChangePin.{
  ChangePinState, Place, in_pace, stopped, in_state, ChangePinEvent, shared, set_new_pin,
  set_eid_pin_done, ChangePinConfig, ChangePinReaction, prepare_change_pin, clear_pace_passwords,
  final, with_context, ChangePinSignal, emit, abort, call_set_eid_pin, call_card, idle,
  change_pin_transition, run_change_pin_state, cancelled_in_state, go_to_pace, go_to,
  deliver_signal, enter_state, react_to, handle_event, dispatch_event, leave_pace, step_change_pin,
  run_change_pin_events,
}

-- Between two events: the machine of PACE has not ended where it runs, and the last state is left
-- as soon as it is approved.
unfoldable pub is_settled : ChangePinConfig → Bool
is_settled config = elim config.place [
  | stopped ↦ true
  | in_pace ↦ elim config.pace.position [ at state ↦ true | established ↦ false | aborted ↦ false ]
  | in_state state ↦ elim state [ final ↦ not config.pace.context.state_approved | _ ↦ true ]
]

go_to-is_settled :
    (place : Place) (config : ChangePinConfig) → is_settled (go_to place config) ≡ true
unfolding is_settled go_to go_to_pace Pace.enter Pace.deliver Pace.move Pace.transition
go_to-is_settled in_pace config = ground arith
go_to-is_settled stopped config = refl
go_to-is_settled (in_state state) config = ground arith

unfoldable pub is_last : ChangePinState → Bool
is_last state = elim state [ final ↦ true | _ ↦ false ]

other-is_settled :
    (state : ChangePinState) (config : ChangePinConfig)
    → is_last state ≡ false
    → config.place ≡ in_state state
    → is_settled config ≡ true
unfolding is_settled is_last
other-is_settled state config h e = ground (arith, h, e)

deliver_signal-is_settled :
    (state : ChangePinState) (signal : ChangePinSignal) (config : ChangePinConfig)
    → is_settled config ≡ true
    → is_settled (deliver_signal state signal config) ≡ true
unfolding deliver_signal
deliver_signal-is_settled state signal config h = delivered (change_pin_transition state signal)
  where
    delivered :
        (o : Option Place)
        → is_settled (elim o [ none ↦ config | some place ↦ go_to place config ]) ≡ true
    delivered none = h
    delivered (some place) = go_to-is_settled place config

noted-is_settled :
    (config : ChangePinConfig)
    → is_settled config ≡ true
    → is_settled (with_context (cancelled_in_state config.pace.context) config) ≡ true
unfolding is_settled cancelled_in_state update_status set_status
noted-is_settled config h = ground (arith, h)

enter_state-is_settled :
    (config : ChangePinConfig) → is_settled config ≡ true → is_settled (enter_state config) ≡ true
unfolding enter_state
enter_state-is_settled config h = entered config.place
  where
    entered :
        (place : Place)
        → is_settled (elim place [
          | in_pace ↦ config
          | stopped ↦ config
          | in_state state ↦
              if config.pace.context.workflow_cancelled
                && not config.pace.context.workflow_cancelled_in_state
              then deliver_signal state abort
                  (with_context (cancelled_in_state config.pace.context) config)
              else config
        ])
          ≡ true
    entered in_pace = h
    entered stopped = h
    entered (in_state state) =
        let delivered =
          deliver_signal-is_settled state abort
            (with_context (cancelled_in_state config.pace.context) config)
            (noted-is_settled config h) in
        ground (arith, h, delivered)

leave_pace-is_settled :
    (config : ChangePinConfig) → config.place ≡ in_pace → is_settled (leave_pace config) ≡ true
unfolding leave_pace is_settled
leave_pace-is_settled config h =
    let first =
      enter_state-is_settled (go_to (in_state prepare_change_pin) config)
        (go_to-is_settled (in_state prepare_change_pin) config) in
    let second =
      enter_state-is_settled (go_to (in_state clear_pace_passwords) config)
        (go_to-is_settled (in_state clear_pace_passwords) config) in
    ground (arith, h, first, second)

react_to-is_settled :
    (state : ChangePinState) (answer : ChangePinReaction × Context) (config : ChangePinConfig)
    → is_settled (with_context answer.1 config) ≡ true
    → is_settled (react_to state answer config) ≡ true
unfolding react_to
react_to-is_settled state answer config h = reacted answer.0
  where
    reacted :
        (reaction : ChangePinReaction)
        → is_settled (elim reaction [
          | emit signal ↦ enter_state (deliver_signal state signal (with_context answer.1 config))
          | call_set_eid_pin pin ↦ with_context answer.1 config
          | call_card command ↦ with_context answer.1 config
          | idle ↦ with_context answer.1 config
        ])
          ≡ true
    reacted (emit signal) =
        enter_state-is_settled (deliver_signal state signal (with_context answer.1 config))
          (deliver_signal-is_settled state signal (with_context answer.1 config) h)
    reacted (call_set_eid_pin pin) = h
    reacted (call_card command) = h
    reacted idle = h

other-dispatch :
    (state : ChangePinState) (event : ChangePinEvent) (config : ChangePinConfig)
    → is_last state ≡ false
    → config.place ≡ in_state state
    → is_settled config ≡ true
    → is_settled (dispatch_event state event config) ≡ true
unfolding dispatch_event
other-dispatch state (shared approve) config h e settled =
    let reacted =
      react_to-is_settled state
        (run_change_pin_state state (record config.pace.context { state_approved = true })) config
        (other-is_settled state
          (with_context
            (run_change_pin_state state (record config.pace.context { state_approved = true })).1
            config)
          h e) in
    ground (arith, settled, reacted)
other-dispatch state (shared cancel) config h e settled =
    let context = cancelled_in_state (record config.pace.context { workflow_cancelled = true }) in
    react_to-is_settled state (emit abort, context) config
      (other-is_settled state (with_context context config) h e)
other-dispatch state (shared (Pace.connection_changed connection)) config h e settled =
    let context : Context = record config.pace.context { card_connection = some connection } in
    let changed = other-is_settled state (with_context context config) h e in
    ground (arith, settled, changed)
other-dispatch state (set_new_pin pin) config h e settled =
    let context : Context = record config.pace.context { new_pin = pin } in
    let changed = other-is_settled state (with_context context config) h e in
    let reacted =
      react_to-is_settled state (handle_event state (set_new_pin pin) config.pace.context) config (
        other-is_settled state
          (with_context (handle_event state (set_new_pin pin) config.pace.context).1 config) h e) in
    ground (arith, settled, changed, reacted)
other-dispatch state event config h e settled =
    let reacted = react_to-is_settled state (handle_event state event config.pace.context) config (
      other-is_settled state (with_context (handle_event state event config.pace.context).1 config)
        h e) in
    ground (arith, settled, reacted)

last-dispatch :
    (event : ChangePinEvent) (config : ChangePinConfig)
    → config.place ≡ in_state final
    → is_settled config ≡ true
    → is_settled (dispatch_event final event config) ≡ true
unfolding is_settled dispatch_event react_to enter_state deliver_signal change_pin_transition go_to
    run_change_pin_state cancelled_in_state update_status set_status
last-dispatch (shared approve) config e h = ground (arith, h, e)
last-dispatch (shared cancel) config e h = ground (arith, h, e)
last-dispatch event config e h = ground (arith, h, e)

dispatch_event-is_settled :
    (state : ChangePinState) (event : ChangePinEvent) (config : ChangePinConfig)
    → config.place ≡ in_state state
    → is_settled config ≡ true
    → is_settled (dispatch_event state event config) ≡ true
unfolding is_last
dispatch_event-is_settled final event config e h = last-dispatch event config e h
dispatch_event-is_settled state event config e h = other-dispatch state event config refl e h

step-is_settled :
    (env : Environment) (event : ChangePinEvent) (place : Place) (pace : Config)
    → is_settled (record { place = place; pace = pace }) ≡ true
    → is_settled (step_change_pin env event (record { place = place; pace = pace })) ≡ true
unfolding step_change_pin
step-is_settled env event stopped pace h = h
step-is_settled env (shared inner) in_pace pace h =
    leave_pace-is_settled (record { place = in_pace; pace = Pace.step env inner pace }) refl
step-is_settled env (set_new_pin pin) in_pace pace h = h
step-is_settled env (set_eid_pin_done code) in_pace pace h = h
step-is_settled env event (in_state state) pace h =
    dispatch_event-is_settled state event (record { place = in_state state; pace = pace }) refl h

pub run-is_settled :
    (events : List (Environment × ChangePinEvent)) (config : ChangePinConfig)
    → is_settled config ≡ true
    → is_settled (run_change_pin_events events config) ≡ true
unfolding run_change_pin_events
run-is_settled [] config h = h
run-is_settled ((env, event) ∷ events) config h =
    run-is_settled events (step_change_pin env event config)
      (step-is_settled env event config.place config.pace h)
