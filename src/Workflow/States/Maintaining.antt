-- ===== src/Workflow/States/Maintaining.antt =====
-- StateMaintainCardConnection: what each result of the PACE channel leads to.
use ausweis_app.Prelude.{true, false, none, some, ◌≡◌, ◌≢◌, ◌↔◌, arith}
use ausweis_app.Card.ReturnCode.{CardReturnCode, is_error, equals_wrong_pace_password}
use ausweis_app.Workflow.Context.{
  Context, reset_pace_passwords, reset_card_connection, reset_last_pace_result,
  set_last_pace_result,
}
use ausweis_app.Workflow.States.{
  Signal, fire, PaceResultClass, pace_result_class, run_maintain_card_connection,
  check_card_connection,
}

-- The return codes of the second group of the switch in StateMaintainCardConnection are exactly
-- those that equalsWrongPacePassword accepts, as the assertions of the source say.
pub pace_result_class-equals_wrong_pace_password :
    (code : CardReturnCode)
    → (pace_result_class code ≡ PaceResultClass.wrong_password)
      ↔ (equals_wrong_pace_password code ≡ true)
unfolding pace_result_class equals_wrong_pace_password
pace_result_class-equals_wrong_pace_password code = (λ h. ground arith, λ h. ground arith)

-- StateMaintainCardConnection goes on only without an error status, with the last PACE result
-- OK and with a card connection, and then leaves the context as it is.
pub run_maintain_card_connection-continue :
    (context : Context)
    → (run_maintain_card_connection context).0 ≡ fire Signal.fire_continue
    → (is_error context.status ≡ false)
      × (context.last_pace_result ≡ CardReturnCode.ok)
      × (context.card_connection ≢ none)
      × ((run_maintain_card_connection context).1 ≡ context)
unfolding run_maintain_card_connection check_card_connection pace_result_class reset_card_connection
    reset_last_pace_result set_last_pace_result
run_maintain_card_connection-continue context h = ground arith

-- Without an error status, a last PACE result that equalsWrongPacePassword accepts makes
-- StateMaintainCardConnection clear the passwords and force an update of the retry counter, or
-- select a reader where there is no connection.
pub run_maintain_card_connection-wrong_password :
    (context : Context)
    → is_error context.status ≡ false
    → equals_wrong_pace_password context.last_pace_result ≡ true
    → (run_maintain_card_connection context ≡ (
      fire (elim context.card_connection [
        | none ↦ Signal.fire_no_card_connection
        | some connection ↦ Signal.fire_force_update_retry_counter
      ]),
      reset_pace_passwords context,
    ))
unfolding run_maintain_card_connection
run_maintain_card_connection-wrong_password context no_error wrong =
    let class = (pace_result_class-equals_wrong_pace_password context.last_pace_result).1 wrong in
    ground arith
