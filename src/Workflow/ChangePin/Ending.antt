-- ===== src/Workflow/ChangePin/Ending.antt =====
-- The end of the change of the PIN, from where a cancellation leads to.
use ausweis_app.Prelude.{
  ℕ, zero, suc, ◌≤◌, ◌<◌, Bool, true, false, not, ◌&&◌, ◌||◌, ◌≡◌, refl, List, [], ◌∷◌,
  if◌then◌else◌, leb, length, arith,
}
use ausweis_app.Card.PasswordId.{PacePasswordId}
use ausweis_app.Card.ReturnCode.{CardReturnCode, is_error}
use ausweis_app.Workflow.Context.{Context, Environment, reset_card_connection, reset_pace_passwords}
use ausweis_app.Workflow.States.{
  run_clear_pace_passwords, run_update_retry_counter, on_update_retry_counter_done,
  run_maintain_card_connection,
}
use ausweis_app.Workflow.Pace as Pace
use ausweis_app.Workflow.Pace.{
  Config, State, Position, at, established, aborted, approve, cancel, retry_counter_done,
  destroy_done,
}
use ausweis_app.Workflow.ChangePin.{
  ChangePinState, Place, in_pace, stopped, in_state, ChangePinEvent, shared, set_eid_pin_done,
  ChangePinConfig, change_pin, clear_pace_passwords, update_retry_counter_final,
  clean_up_reader_manager, final, change_pin_transition, run_change_pin_state,
  run_clean_up_reader_manager, go_to, deliver_signal, enter_state, react_to, handle_event,
  dispatch_event, leave_pace, step_change_pin,
}

-- What the machine waits for: the approval of its state, or the end of the card command that this
-- called, with whatever code.
unfoldable pub awaited : CardReturnCode → ChangePinConfig → ChangePinEvent
awaited code config =
    if not config.pace.context.state_approved then shared approve else elim config.place [
      | stopped ↦ shared approve
      | in_pace ↦ shared destroy_done
      | in_state state ↦ elim state [
        | change_pin ↦ set_eid_pin_done code
        | update_retry_counter_final ↦ shared (retry_counter_done code)
        | _ ↦ shared destroy_done
      ]
    ]

unfoldable pub drive : List (Environment × CardReturnCode) → ChangePinConfig → ChangePinConfig
unfolding awaited
drive [] config = config
drive ((env, code) ∷ rest) config = drive rest (step_change_pin env (awaited code config) config)

-- How many awaited events lead to the end, of the positions that a cancellation leads to.
unfoldable pub pace_rank : Bool → Position → ℕ
pace_rank approved established = 100
pace_rank approved aborted = 100
pace_rank approved (at state) = elim state [
  | Pace.destroy_pace ↦ if approved then 8 else 9
  | Pace.maintain_card_connection ↦ if approved then 100 else 7
  | Pace.clear_pace_passwords_on_error ↦ if approved then 100 else 6
  | _ ↦ 100
]

unfoldable pub state_rank : Bool → ChangePinState → ℕ
state_rank approved state = elim state [
  | clear_pace_passwords ↦ if approved then 100 else 5
  | update_retry_counter_final ↦ if approved then 3 else 4
  | clean_up_reader_manager ↦ if approved then 100 else 2
  | final ↦ if approved then 100 else 1
  | _ ↦ 100
]

unfoldable pub rank : Bool → Place → Position → ℕ
unfolding pace_rank state_rank
rank approved stopped position = 0
rank approved in_pace position = pace_rank approved position
rank approved (in_state state) position = state_rank approved state

-- The cancellation is noted as an error.
abbrev pub is_noted : Context → Bool
is_noted context =
    is_error context.status
    && (not context.workflow_cancelled || context.workflow_cancelled_in_state)

abbrev pub is_stopped : Place → Bool
is_stopped stopped = true
is_stopped in_pace = false
is_stopped (in_state state) = false

unfoldable pub is_closing : ℕ → ChangePinConfig → Bool
unfolding rank
is_closing n config =
    is_stopped config.place
    || is_noted config.pace.context
      && leb (rank config.pace.context.state_approved config.place config.pace.position) n

abbrev pub at_place : Place → Position → Context → PacePasswordId → ChangePinConfig
at_place place position context id = record {
  place = place;
  pace = record { position = position; context = context; password_id = id };
}

module _ (env : Environment) (code : CardReturnCode) (n : ℕ) (small : n < 50) (context : Context)
    (id : PacePasswordId) where
  next : ChangePinConfig → ChangePinConfig
  unfolding awaited
  next config = step_change_pin env (awaited code config) config

  stopped-is_closing :
      (position : Position)
      → is_closing (suc n) (at_place stopped position context id) ≡ true
      → is_closing n (next (at_place stopped position context id)) ≡ true
  unfolding is_closing next step_change_pin
  stopped-is_closing position h = ground (arith, h, small)

  state-is_closing :
      (state : ChangePinState) (position : Position)
      → is_closing (suc n) (at_place (in_state state) position context id) ≡ true
      → is_closing n (next (at_place (in_state state) position context id)) ≡ true
  unfolding is_closing next step_change_pin dispatch_event react_to enter_state deliver_signal go_to
      change_pin_transition run_change_pin_state run_update_retry_counter
      run_clean_up_reader_manager handle_event reset_card_connection on_update_retry_counter_done
      run_clear_pace_passwords reset_pace_passwords
  state-is_closing final position h = ground (arith, h, small)
  state-is_closing clean_up_reader_manager position h = ground (arith, h, small)
  state-is_closing update_retry_counter_final position h = ground (arith, h, small)
  state-is_closing clear_pace_passwords position h = ground (arith, h, small)
  state-is_closing state position h = ground (arith, h, small)

  pace-is_closing :
      (position : Position)
      → is_closing (suc n) (at_place in_pace position context id) ≡ true
      → is_closing n (next (at_place in_pace position context id)) ≡ true
  unfolding is_closing next step_change_pin leave_pace go_to enter_state deliver_signal
      change_pin_transition Pace.step Pace.dispatch Pace.react Pace.run_state Pace.deliver
      Pace.transition Pace.move Pace.enter Pace.approved Pace.handle run_maintain_card_connection
      run_clear_pace_passwords reset_pace_passwords
  pace-is_closing established h = ground (arith, h, small)
  pace-is_closing aborted h = ground (arith, h, small)
  pace-is_closing (at Pace.maintain_card_connection) h = ground (arith, h, small)
  pace-is_closing (at Pace.clear_pace_passwords_on_error) h = ground (arith, h, small)
  pace-is_closing (at Pace.destroy_pace) h = ground (arith, h, small)
  pace-is_closing (at state) h = ground (arith, h, small)

  next-is_closing :
      (place : Place) (position : Position)
      → is_closing (suc n) (at_place place position context id) ≡ true
      → is_closing n (next (at_place place position context id)) ≡ true
  next-is_closing stopped position h = stopped-is_closing position h
  next-is_closing in_pace position h = pace-is_closing position h
  next-is_closing (in_state state) position h = state-is_closing state position h

zero-is_closing :
    (place : Place) (position : Position) (context : Context) (id : PacePasswordId)
    → is_closing 0 (at_place place position context id) ≡ true
    → place ≡ stopped
unfolding is_closing
zero-is_closing stopped position context id h = refl
zero-is_closing in_pace position context id h = ground (arith, h)
zero-is_closing (in_state state) position context id h = ground (arith, h)

relax :
    (n : ℕ) (config : ChangePinConfig)
    → is_closing n config ≡ true
    → is_closing (suc n) config ≡ true
unfolding is_closing
relax n config h = ground (arith, h)

pub drive-stopped :
    (answers : List (Environment × CardReturnCode)) (n : ℕ) (config : ChangePinConfig)
    → n ≤ length answers
    → n < 50
    → is_closing n config ≡ true
    → (drive answers config).place ≡ stopped
unfolding drive next
drive-stopped [] zero config long small h =
    zero-is_closing config.place config.pace.position config.pace.context config.pace.password_id h
drive-stopped [] (suc n) config long small h = absurd (omega (arith, long))
drive-stopped ((env, code) ∷ answers) zero config long small h =
    drive-stopped answers zero (step_change_pin env (awaited code config) config) (omega arith)
      (omega arith)
      (next-is_closing env code zero (omega arith) config.pace.context config.pace.password_id
        config.place config.pace.position (relax zero config h))
drive-stopped ((env, code) ∷ answers) (suc n) config long small h =
    drive-stopped answers n (step_change_pin env (awaited code config) config) (omega (arith, long))
      (omega (arith, small))
      (next-is_closing env code n (omega (arith, small)) config.pace.context config.pace.password_id
        config.place config.pace.position h)
