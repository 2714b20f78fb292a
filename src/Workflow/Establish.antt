-- ===== src/Workflow/Establish.antt =====
-- workflows/base/states/StateVerifyRetryCounter.cpp, StatePreparePace.cpp and
-- StateEstablishPaceChannel.cpp: the choice of the password and the PACE command.
pub mod Preparing
pub mod Repositioning
use ausweis_app.Prelude.{
  ℕ, Bool, true, false, not, ◌&&◌, ◌||◌, Option, none, some, List, [], ◌∷◌, ◌==◌, if◌then◌else◌,
  length, is_empty, replicate,
}
use ausweis_app.Bytes.{Bytes}
use ausweis_app.Card.PasswordId.{PacePasswordId}
use ausweis_app.Card.ReturnCode.{CardReturnCode, GlobalStatus, is_error, to_global_status}
use ausweis_app.Workflow.Reader.{ReaderInfo, CardConnection}
use ausweis_app.Workflow.Context.{
  Kind, Context, Environment, is_can_allowed_mode, update_status, is_npa_repositioning_required,
  set_npa_position_verified, handle_wrong_npa_position, reset_pace_passwords, set_last_pace_result,
  reset_last_pace_result, remember_reader, is_expected_reader, get_expected_retry_counter,
  set_expected_retry_counter, set_establish_pace_channel_type, same_counter,
}
use ausweis_app.Workflow.States.{
  fire, call, unreachable, unblock_pin, establish_pace_channel, Signal, CardCommand, Reaction,
  Answer, abort, proceed, is_ok,
}

-- StateVerifyRetryCounter
unfoldable pub forget_unexpected : CardConnection → Context → Context
forget_unexpected connection context =
    if not (is_expected_reader context)
      || not
          (same_counter (get_expected_retry_counter context) connection.reader_info.retry_counter)
    then remember_reader (reset_pace_passwords context)
    else context

unfoldable pub run_verify_retry_counter : Context → Answer
unfolding forget_unexpected
run_verify_retry_counter context = elim context.card_connection [
  | none ↦ abort context
  | some connection ↦
      let checked = forget_unexpected connection context in
      elim (get_expected_retry_counter checked) [
        | none ↦ proceed (remember_reader checked)
        | some counter ↦ proceed checked
      ]
]

-- StatePreparePace

-- To the user or to the card, by whether there is a password.
abbrev pub enter_or_establish : Bytes → Context → Answer
enter_or_establish password context =
    if is_empty password
    then (fire Signal.fire_enter_pace_password, context)
    else (fire Signal.fire_establish_pace_channel, context)

-- `none` where the function returns false.
unfoldable pub request_pace_can_if_still_required :
    CardConnection → Context → Option Answer × Context
request_pace_can_if_still_required connection context =
    let typed = set_establish_pace_channel_type PacePasswordId.pace_can context in
    if not connection.pace_can_successful
    then (some (enter_or_establish typed.can typed), typed)
    else (none, typed)

unfoldable pub prepare_pin : CardConnection → Context → Answer
prepare_pin connection context =
    let typed = set_establish_pace_channel_type PacePasswordId.pace_pin context in
    if not connection.pace_pin_successful
    then enter_or_establish typed.pin typed
    else (unreachable, typed)

unfoldable pub prepare_puk : Context → Answer
prepare_puk context =
    let typed = set_establish_pace_channel_type PacePasswordId.pace_puk context in
    enter_or_establish typed.puk typed

-- The switch on the retry counter.
unfoldable pub prepare_by_counter : CardConnection → Option ℕ → Context → Answer
unfolding prepare_pin prepare_puk request_pace_can_if_still_required
prepare_by_counter connection none context = prepare_pin connection context
prepare_by_counter connection (some counter) context =
    if counter == 0
    then prepare_puk context
    else if counter == 1
    then (let (answer, typed) = request_pace_can_if_still_required connection context in
        elim answer [ some requested ↦ requested | none ↦ prepare_pin connection typed ])
    else prepare_pin connection context

unfoldable pub run_prepare_pace : Context → Answer
unfolding prepare_by_counter request_pace_can_if_still_required
run_prepare_pace context =
    let started = set_establish_pace_channel_type PacePasswordId.unknown context in
    elim context.card_connection [
      | none ↦ abort started
      | some connection ↦
          if is_can_allowed_mode started
          then (let (answer, typed) = request_pace_can_if_still_required connection started in
              elim answer [ some requested ↦ requested | none ↦ proceed typed ])
          else prepare_by_counter connection connection.reader_info.retry_counter started
    ]

-- StateEstablishPaceChannel

abbrev pub is_pin : PacePasswordId → Bool
is_pin id = elim id [ PacePasswordId.pace_pin ↦ true | _ ↦ false ]

abbrev pub is_can : PacePasswordId → Bool
is_can id = elim id [ PacePasswordId.pace_can ↦ true | _ ↦ false ]

abbrev pub is_puk : PacePasswordId → Bool
is_puk id = elim id [ PacePasswordId.pace_puk ↦ true | _ ↦ false ]

abbrev pub is_auth : Kind → Bool
is_auth (Kind.auth can_allowed chat description) = true
is_auth (Kind.change_pin transport) = false

-- The password that is sent, without that of the transport PIN.
unfoldable pub password_for : PacePasswordId → Context → Bytes
password_for PacePasswordId.unknown context = []
password_for PacePasswordId.pace_mrz context = []
password_for PacePasswordId.pace_can context = context.can
password_for PacePasswordId.pace_pin context = context.pin
password_for PacePasswordId.pace_puk context = context.puk

-- The password whose channel is the one that the workflow wants.
unfoldable pub is_final_password : PacePasswordId → Context → Bool
is_final_password id context = is_pin id || is_can id && is_can_allowed_mode context

unfoldable pub sent_chat : PacePasswordId → Context → Bytes × Bytes
sent_chat id context =
    if is_final_password id context
    then elim context.kind [
      | Kind.auth can_allowed chat description ↦ (chat, description)
      | Kind.change_pin transport ↦ ([], [])
    ]
    else ([], [])

-- `abort` and `abortToChangePin`
unfoldable pub abort_pace : Context → Answer
abort_pace context = abort (reset_last_pace_result context)

unfoldable pub abort_to_change_pin : Context → Answer
abort_to_change_pin context =
    let marked : Context = elim context.kind [
      | Kind.auth can_allowed chat description ↦
          set_last_pace_result CardReturnCode.no_active_pin_set
            (record context { skip_redirect = true })
      | Kind.change_pin transport ↦ context
    ] in
    abort (update_status GlobalStatus.workflow_cancellation_by_user marked)

-- Five zeros, for a reader with a keypad that asks for the transport PIN.
unfoldable pub transport_password : PacePasswordId → ReaderInfo → Kind → Bytes → Bytes
transport_password id info kind password =
    if is_pin id && not info.basic_reader
    then elim kind [
      | Kind.auth can_allowed chat description ↦ password
      | Kind.change_pin transport ↦ if transport then replicate 5 0 else password
    ]
    else password

unfoldable pub call_pace_command : PacePasswordId → ReaderInfo → Bytes → Context → Answer
unfolding sent_chat transport_password
call_pace_command id info password context =
    if is_puk id
    then (call (unblock_pin password), context)
    else (let (chat, description) = sent_chat id context in
        (
          call (
              establish_pace_channel id (transport_password id info context.kind password) chat
                description),
          context,
        ))

unfoldable pub run_establish_pace_channel : Context → Answer
unfolding abort_pace abort_to_change_pin password_for call_pace_command
run_establish_pace_channel context =
    let id = context.establish_pace_channel_type in
    let password = password_for id context in
    if is_error context.status
    then abort context
    else if is_pin id && is_auth context.kind && (length password == 5)
    then abort_to_change_pin context
    else elim context.card_connection [
      | none ↦ abort_pace context
      | some connection ↦
          if is_empty password && connection.reader_info.basic_reader
          then abort_pace (reset_pace_passwords context)
          else call_pace_command id connection.reader_info password context
    ]

unfoldable pub handle_npa_position : ℕ → CardReturnCode → Context → Context
handle_npa_position now code context = elim code [
  | CardReturnCode.card_not_found ↦ handle_wrong_npa_position now context
  | CardReturnCode.retry_allowed ↦ handle_wrong_npa_position now context
  | _ ↦ set_npa_position_verified context
]

unfoldable pub expect_retry_counter : PacePasswordId → CardReturnCode → Context → Context
expect_retry_counter id code context =
    if is_pin id && is_ok code
    then set_expected_retry_counter (some 3) context
    else if is_puk id && is_ok code
    then set_expected_retry_counter none (reset_pace_passwords context)
    else context

-- The result of a wrong PIN, by the counter before it. The source reads the counter without a look
-- whether there is a connection; without one the model gives the default.
unfoldable pub wrong_pin_result : Option CardConnection → CardReturnCode
wrong_pin_result none = CardReturnCode.invalid_pin
wrong_pin_result (some connection) = elim connection.reader_info.retry_counter [
  | none ↦ CardReturnCode.invalid_pin
  | some counter ↦
      if counter == 2
      then CardReturnCode.invalid_pin_2
      else if counter == 1
      then CardReturnCode.invalid_pin_3
      else CardReturnCode.invalid_pin
]

-- The switch on the return code.
unfoldable pub answer_code : ℕ → PacePasswordId → CardReturnCode → Context → Answer
unfolding abort_to_change_pin
answer_code now id code context = elim code [
  | CardReturnCode.ok ↦
      if is_final_password id context
      then (fire Signal.fire_pace_channel_established, context)
      else if is_puk id
      then (
        fire Signal.fire_pace_channel_inoperative,
        set_last_pace_result CardReturnCode.ok_puk context,
      )
      else proceed context
  | CardReturnCode.puk_inoperative ↦
      abort (update_status (to_global_status CardReturnCode.puk_inoperative) context)
  | CardReturnCode.cancellation_by_user ↦
      abort (update_status (to_global_status CardReturnCode.cancellation_by_user) context)
  | CardReturnCode.no_active_pin_set ↦ abort_to_change_pin context
  | CardReturnCode.invalid_pin ↦ (
    fire Signal.fire_pace_channel_inoperative,
    set_last_pace_result (wrong_pin_result context.card_connection) context,
  )
  | _ ↦
      if is_npa_repositioning_required now context
      then (fire Signal.fire_abort_and_unfortunate_card_position, context)
      else abort context
]

-- `onEstablishConnectionDone`
unfoldable pub on_establish_connection_done : ℕ → PacePasswordId → CardReturnCode → Context → Answer
unfolding handle_npa_position expect_retry_counter answer_code
on_establish_connection_done now id code context = answer_code now id code (
    expect_retry_counter id code (handle_npa_position now code (set_last_pace_result code context)))
