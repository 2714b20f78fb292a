-- ===== src/Workflow/Pace/Established.antt =====
-- The machine of the PACE channel: when the channel counts as established.
use ausweis_app.Prelude.{
  ℕ, Bool, true, false, if◌then◌else◌, ◌≡◌, refl, ap, sym, ◌∙◌, arith, ◌⊎◌, inl, inr,
}
use ausweis_app.Bytes.{Bytes}
use ausweis_app.Card.PasswordId.{PacePasswordId}
use ausweis_app.Card.ReturnCode.{CardReturnCode}
use ausweis_app.Workflow.Context.{
  Context, Environment, Kind, is_can_allowed_mode, set_last_pace_result, handle_wrong_npa_position,
  set_npa_position_verified, reset_card_connection, set_expected_retry_counter,
  reset_pace_passwords,
}
use ausweis_app.Workflow.States.{
  Signal, Answer, Reaction, fire, call, wait, unreachable, run_maintain_card_connection,
  check_card_connection, run_clear_pace_passwords, run_unfortunate_card_position,
  run_enter_pace_password, run_update_retry_counter, on_reader_info_changed, on_card_inserted,
  on_connect_done, on_reader_removed, on_update_retry_counter_done,
}
use ausweis_app.Workflow.Establish.{
  is_final_password, on_establish_connection_done, answer_code, handle_npa_position,
  expect_retry_counter, run_establish_pace_channel, run_prepare_pace, run_verify_retry_counter,
}
use ausweis_app.Workflow.Pace.Passwords.{approved-position}
use ausweis_app.Workflow.Pace.{
  connect_card, enter_pace_password, approve, cancel, set_password, plug_in_types_changed,
  connection_changed, State, Position, at, established, aborted, Config, Event, transition,
  on_user_cancelled, move, deliver, enter, maintain_card_connection, prepare_pace,
  verify_retry_counter, select_reader, react, run_state, handle, approved, dispatch, step,
  establish_pace_channel, establish_done,
}

-- The answer is not the signal of an established channel.
abbrev is_other : Reaction → Bool
is_other (fire signal) = elim signal [ Signal.fire_pace_channel_established ↦ false | _ ↦ true ]
is_other (call command) = true
is_other wait = true
is_other unreachable = true

abbrev is_established : Position → Bool
is_established (at state) = false
is_established established = true
is_established aborted = false

enter-is_established :
    (config : Config)
    → is_established (enter config).position ≡ true
    → is_established config.position ≡ true
unfolding enter deliver move transition
enter-is_established config h = ground arith

deliver-is_established :
    (state : State) (signal : Signal) (config : Config)
    → config.position ≡ at state
    → is_established (deliver state signal config).position ≡ true
    → is_other (fire signal) ≡ false
unfolding deliver move transition
deliver-is_established state signal config e h = ground arith

unmoved :
    (state : State) (config : Config)
    → config.position ≡ at state
    → is_established config.position ≡ true
    → true ≡ false
unmoved state config e h = ground arith

react-is_established :
    (state : State) (answer : Answer) (config : Config)
    → config.position ≡ at state
    → is_established (react state answer config).position ≡ true
    → is_other answer.0 ≡ false
unfolding react
react-is_established state (fire signal, context) config e h =
    let answered = record config { context = context } in
    deliver-is_established state signal answered e
      (enter-is_established (deliver state signal answered) h)
react-is_established state (call command, context) config e h = unmoved state config e h
react-is_established state (wait, context) config e h = unmoved state config e h
react-is_established state (unreachable, context) config e h = unmoved state config e h

run_state-is_other :
    (env : Environment) (state : State) (context : Context)
    → is_other (run_state env state context).0 ≡ true
unfolding run_state run_maintain_card_connection check_card_connection run_clear_pace_passwords
    run_unfortunate_card_position run_enter_pace_password run_update_retry_counter
    on_reader_info_changed on_card_inserted run_verify_retry_counter run_prepare_pace
    run_establish_pace_channel
run_state-is_other env maintain_card_connection context = ground arith
run_state-is_other env establish_pace_channel context = ground arith
run_state-is_other env prepare_pace context = ground arith
run_state-is_other env verify_retry_counter context = ground arith
run_state-is_other env select_reader context = ground arith
run_state-is_other env state context = ground arith

answer_code-is_other :
    (now : ℕ) (id : PacePasswordId) (code : CardReturnCode) (context : Context)
    → is_other (answer_code now id code context).0 ≡ false
    → (code ≡ CardReturnCode.ok) × (is_final_password id context ≡ true)
unfolding answer_code
answer_code-is_other now id code context h = ground arith

-- What comes before the switch leaves the kind of the workflow.
is_final_password_lem :
    (now : ℕ) (id : PacePasswordId) (code : CardReturnCode) (context : Context)
    → is_final_password id (
        expect_retry_counter id code
          (handle_npa_position now code (set_last_pace_result code context)))
      ≡ is_final_password id context
unfolding is_final_password is_can_allowed_mode expect_retry_counter handle_npa_position
    set_last_pace_result handle_wrong_npa_position set_npa_position_verified reset_card_connection
    set_expected_retry_counter reset_pace_passwords
is_final_password_lem now id code context = ground arith

handle-is_other :
    (env : Environment) (state : State) (id : PacePasswordId) (event : Event) (context : Context)
    → is_other (handle env state id event context).0 ≡ false
    → (state ≡ establish_pace_channel)
      × (event ≡ establish_done CardReturnCode.ok)
      × (is_final_password id context ≡ true)
unfolding handle on_establish_connection_done on_connect_done on_reader_removed
    on_update_retry_counter_done on_reader_info_changed on_card_inserted
handle-is_other env establish_pace_channel id (establish_done code) context h =
    let asked = handle_npa_position env.now code (set_last_pace_result code context) in
    let (ok, final) = answer_code-is_other env.now id code (expect_retry_counter id code asked) h in
    (refl, ap establish_done ok, sym (is_final_password_lem env.now id code context) ∙ final)
handle-is_other env select_reader id event context h = ground arith
handle-is_other env state id event context h = ground arith

on_user_cancelled-is_other :
    (state : State) (context : Context) → is_other (on_user_cancelled state context).0 ≡ true
unfolding on_user_cancelled
on_user_cancelled-is_other state context = refl

contradicted {ℓ} : {A : Type ℓ} (b : Bool) → b ≡ true → b ≡ false → A
contradicted b h h' = absurd (ground arith)

either :
    (b : Bool) (x y : Config)
    → is_established (if b then x else y).position ≡ true
    → (is_established x.position ≡ true) ⊎ (is_established y.position ≡ true)
either true x y h = inl h
either false x y h = inr h

-- No answer but that of an established channel gets there.
not_reached {ℓ} :
    {A : Type ℓ} (state : State) (answer : Answer) (config : Config)
    → config.position ≡ at state
    → is_other answer.0 ≡ true
    → is_established (react state answer config).position ≡ true
    → A
not_reached state answer config e other h =
    contradicted (is_other answer.0) other (react-is_established state answer config e h)

not_there {ℓ} :
    {A : Type ℓ} (state : State) (config : Config)
    → config.position ≡ at state
    → is_established config.position ≡ true
    → A
not_there state config e h = contradicted true refl (unmoved state config e h)

dispatch-established :
    (env : Environment) (state : State) (event : Event) (config : Config)
    → config.position ≡ at state
    → is_established (dispatch env state event config).position ≡ true
    → (state ≡ establish_pace_channel)
      × (event ≡ establish_done CardReturnCode.ok)
      × (is_final_password config.password_id config.context ≡ true)
unfolding dispatch
dispatch-established env state approve config e h =
    let answer = run_state env state (approved state config).context in
    elim (either config.context.state_approved config (react state answer (approved state config))
      h) [
        | inl stays ↦ not_there state config e stays
        | inr reacts ↦
            not_reached state answer (approved state config) (approved-position state config e)
              (run_state-is_other env state (approved state config).context) reacts
      ]
dispatch-established env state cancel config e h =
    let cancelled = record config.context { workflow_cancelled = true } in
    not_reached state (on_user_cancelled state cancelled) config e
      (on_user_cancelled-is_other state cancelled) h
dispatch-established env enter_pace_password (set_password id password) config e h =
    not_there enter_pace_password config e h
dispatch-established env select_reader plug_in_types_changed config e h =
    not_reached select_reader (fire Signal.fire_retry, config.context) config e refl h
dispatch-established env connect_card plug_in_types_changed config e h =
    not_reached connect_card (fire Signal.fire_retry, config.context) config e refl h
dispatch-established env state (connection_changed connection) config e h =
    contradicted true refl (ground arith)
dispatch-established env state event config e h =
    let answer = handle env state config.password_id event config.context in
    elim (either config.context.state_approved (react state answer config) config h) [
      | inl reacts ↦
          handle-is_other env state config.password_id event config.context
            (react-is_established state answer config e reacts)
      | inr stays ↦ not_there state config e stays
    ]

-- The PIN, or the CAN in an authentication in which it is allowed.
abbrev pub IsWanted : PacePasswordId → Context → Type 0
IsWanted id context =
    (id ≡ PacePasswordId.pace_pin)
    ⊎ ((id ≡ PacePasswordId.pace_can)
        × (chat description : Bytes) × (context.kind ≡ Kind.auth true chat description))

is_final_password-IsWanted :
    (id : PacePasswordId) (context : Context)
    → is_final_password id context ≡ true
    → IsWanted id context
unfolding is_final_password is_can_allowed_mode
is_final_password-IsWanted id context h = by_kind id context.kind refl h
  where
    by_kind :
        (id : PacePasswordId) (kind : Kind)
        → context.kind ≡ kind
        → is_final_password id (record context { kind = kind }) ≡ true
        → IsWanted id context
    by_kind PacePasswordId.pace_pin kind e h = inl refl
    by_kind PacePasswordId.pace_can (Kind.auth true chat description) e h =
        inr (refl, chat, description, e)
    by_kind PacePasswordId.pace_can (Kind.auth false chat description) e h = absurd (ground arith)
    by_kind PacePasswordId.pace_can (Kind.change_pin transport) e h = absurd (ground arith)
    by_kind PacePasswordId.pace_puk kind e h = absurd (ground arith)
    by_kind PacePasswordId.pace_mrz kind e h = absurd (ground arith)
    by_kind PacePasswordId.unknown kind e h = absurd (ground arith)

-- One event takes the PACE machine to the established channel only in
-- StateEstablishPaceChannel, if it is the success of the card command, and if the password was
-- the PIN or, in an authentication in which the CAN is allowed, the CAN.
pub step-established :
    (env : Environment) (state : State) (event : Event) (context : Context) (id : PacePasswordId)
    → (step env event
        (record { position = at state; context = context; password_id = id })).position
      ≡ established
    → (state ≡ establish_pace_channel)
      × (event ≡ establish_done CardReturnCode.ok)
      × IsWanted id context
unfolding step
step-established env state event context id h =
    let (there, success, final) =
      dispatch-established env state event
        (record { position = at state; context = context; password_id = id }) refl
        (ap is_established h) in
    (there, success, is_final_password-IsWanted id context final)
