-- ===== src/Workflow/Establish/Preparing.antt =====
-- StateVerifyRetryCounter, StatePreparePace and StateEstablishPaceChannel: which password is used,
-- and that a password is not sent to a card for which it was not entered.
use ausweis_app.Prelude.{
  ℕ, Bool, true, false, not, ◌&&◌, ◌||◌, Option, none, some, ◌==◌, if◌then◌else◌, length, is_empty,
  ◌≡◌, refl, ap, ◌∙◌, arith,
}
use ausweis_app.Bytes.{Bytes}
use ausweis_app.Card.PasswordId.{PacePasswordId}
use ausweis_app.Workflow.Reader.{CardConnection}
use ausweis_app.Workflow.Context.{
  Context, is_can_allowed_mode, remember_reader, reset_pace_passwords, get_expected_retry_counter,
  is_expected_reader, same_counter, set_establish_pace_channel_type,
}
use ausweis_app.Workflow.States.{
  Signal, CardCommand, fire, call, unblock_pin, establish_pace_channel,
}
use ausweis_app.Workflow.Establish.{
  forget_unexpected, run_verify_retry_counter, run_prepare_pace, prepare_by_counter, prepare_pin,
  prepare_puk, request_pace_can_if_still_required, password_for, run_establish_pace_channel,
  call_pace_command, transport_password, abort_pace, abort_to_change_pin, is_pin, is_auth,
}

-- The password that the card asks for: with the CAN allowed the CAN; else the PUK for a blocked
-- PIN, the CAN before the last try of the PIN, and else the PIN.
unfoldable pub required_password : Bool → Option ℕ → Bool → PacePasswordId
required_password can_allowed counter can_done =
    if can_allowed then PacePasswordId.pace_can else elim counter [
      | none ↦ PacePasswordId.pace_pin
      | some tries ↦
          if tries == 0
          then PacePasswordId.pace_puk
          else if (tries == 1) && not can_done
          then PacePasswordId.pace_can
          else PacePasswordId.pace_pin
    ]

unfoldable pub required_now : CardConnection → Context → PacePasswordId
unfolding required_password
required_now connection context =
    required_password (is_can_allowed_mode context) connection.reader_info.retry_counter
      connection.pace_can_successful

-- With a connection on which the PIN was not yet successful, nor the CAN where it is allowed,
-- StatePreparePace sets the required password as the type of the channel and asks the user for
-- it exactly if it is not stored: the CAN where it is allowed, else the PUK for 0 tries, the
-- CAN for 1 try as long as it was not successful, and else the PIN.
pub run_prepare_pace-required_now :
    (connection : CardConnection) (context : Context)
    → context.card_connection ≡ some connection
    → connection.pace_pin_successful ≡ false
    → (is_can_allowed_mode context && connection.pace_can_successful) ≡ false
    → ((run_prepare_pace context).1
        ≡ record context { establish_pace_channel_type = required_now connection context })
      × ((run_prepare_pace context).0
          ≡ fire (
              if is_empty (password_for (required_now connection context) context)
              then Signal.fire_enter_pace_password
              else Signal.fire_establish_pace_channel))
unfolding run_prepare_pace prepare_by_counter prepare_pin prepare_puk
    request_pace_can_if_still_required set_establish_pace_channel_type required_now
    required_password password_for is_can_allowed_mode
run_prepare_pace-required_now connection context e pin can = ground arith

de_morgan : (a b : Bool) → (a && b) ≡ false → (not a || not b) ≡ true
de_morgan true true h = ground arith
de_morgan true false h = refl
de_morgan false b h = refl

-- The context after an unexpected reader or counter.
abbrev remembered : CardConnection → Context → Context
remembered connection context = record (reset_pace_passwords context) {
  expected_reader = connection.reader_info;
}

reset_pace_passwords-connection :
    (context : Context) → (reset_pace_passwords context).card_connection ≡ context.card_connection
unfolding reset_pace_passwords
reset_pace_passwords-connection context = ground arith

remembered-connection :
    (connection : CardConnection) (context : Context)
    → context.card_connection ≡ some connection
    → (remembered connection context).card_connection ≡ some connection
remembered-connection connection context e = reset_pace_passwords-connection context ∙ e

remembered-counter :
    (connection : CardConnection) (context : Context)
    → get_expected_retry_counter (remembered connection context)
      ≡ connection.reader_info.retry_counter
unfolding get_expected_retry_counter
remembered-counter connection context = refl

is_can_allowed_mode-remembered :
    (connection : CardConnection) (context : Context)
    → is_can_allowed_mode (remembered connection context) ≡ is_can_allowed_mode context
unfolding is_can_allowed_mode reset_pace_passwords
is_can_allowed_mode-remembered connection context = ground arith

password_for-remembered :
    (id : PacePasswordId) (connection : CardConnection) (context : Context)
    → is_empty (password_for id (remembered connection context)) ≡ true
unfolding password_for reset_pace_passwords
password_for-remembered id connection context = ground arith

remember_reader-some :
    (connection : CardConnection) (context : Context)
    → context.card_connection ≡ some connection
    → remember_reader context ≡ record context { expected_reader = connection.reader_info }
unfolding remember_reader
remember_reader-some connection context e = ground arith

forget_unexpected-remembered :
    (connection : CardConnection) (context : Context)
    → context.card_connection ≡ some connection
    → (is_expected_reader context
        && same_counter (get_expected_retry_counter context) connection.reader_info.retry_counter)
      ≡ false
    → forget_unexpected connection context ≡ remembered connection context
unfolding forget_unexpected
forget_unexpected-remembered connection context e unexpected =
    rw
      (de_morgan (is_expected_reader context)
        (same_counter (get_expected_retry_counter context) connection.reader_info.retry_counter)
        unexpected)
      (remember_reader-some connection (reset_pace_passwords context)
        (reset_pace_passwords-connection context ∙ e))

run_verify_retry_counter-remembered :
    (connection : CardConnection) (context : Context)
    → context.card_connection ≡ some connection
    → (is_expected_reader context
        && same_counter (get_expected_retry_counter context) connection.reader_info.retry_counter)
      ≡ false
    → run_verify_retry_counter context ≡ (fire Signal.fire_continue, remembered connection context)
unfolding run_verify_retry_counter
run_verify_retry_counter-remembered connection context e unexpected =
    let forgotten = forget_unexpected-remembered connection context e unexpected in
    let again =
      remember_reader-some connection (remembered connection context)
        (remembered-connection connection context e) in
    ground arith

-- With a connection on which the PIN was not yet successful, nor the CAN where it is allowed:
-- if its reader or retry counter is not the expected one, StateVerifyRetryCounter leaves the
-- retry counter of the connection as the expected one, and StatePreparePace then asks the user
-- for the password.
pub run_prepare_pace-run_verify_retry_counter :
    (connection : CardConnection) (context : Context)
    → context.card_connection ≡ some connection
    → (is_expected_reader context
        && same_counter (get_expected_retry_counter context) connection.reader_info.retry_counter)
      ≡ false
    → connection.pace_pin_successful ≡ false
    → (is_can_allowed_mode context && connection.pace_can_successful) ≡ false
    → ((run_verify_retry_counter context).0 ≡ fire Signal.fire_continue)
      × (get_expected_retry_counter (run_verify_retry_counter context).1
          ≡ connection.reader_info.retry_counter)
      × ((run_prepare_pace (run_verify_retry_counter context).1).0
          ≡ fire Signal.fire_enter_pace_password)
run_prepare_pace-run_verify_retry_counter connection context e unexpected pin can =
    let verified = remembered connection context in
    let run = run_verify_retry_counter-remembered connection context e unexpected in
    let allowed = is_can_allowed_mode-remembered connection context in
    let id = required_now connection verified in
    (
      ap (λ answer. answer.0) run,
      ap (λ answer. get_expected_retry_counter answer.1) run
          ∙ remembered-counter connection context,
      ap (λ answer. (run_prepare_pace answer.1).0) run
          ∙ (run_prepare_pace-required_now connection verified
              (remembered-connection connection context e) pin
              (ap (λ b. b && connection.pace_can_successful) allowed ∙ can)).1
          ∙ ap
              (λ b.
                fire (
                  if b
                  then Signal.fire_enter_pace_password
                  else Signal.fire_establish_pace_channel))
              (password_for-remembered id connection context),
    )

-- The passwords that a command carries.
abbrev sent_password : CardCommand → Option Bytes
sent_password command = elim command [
  | unblock_pin puk ↦ some puk
  | establish_pace_channel id password chat description ↦ some password
  | _ ↦ none
]

-- The password that StateEstablishPaceChannel sends to a basic reader is the stored one of the
-- type of the channel and not empty, and an authentication sends no PIN of five digits.
pub run_establish_pace_channel-sent_password :
    (connection : CardConnection) (context : Context) (command : CardCommand) (password : Bytes)
    → context.card_connection ≡ some connection
    → connection.reader_info.basic_reader ≡ true
    → (run_establish_pace_channel context).0 ≡ call command
    → sent_password command ≡ some password
    → (password ≡ password_for context.establish_pace_channel_type context)
      × (is_empty password ≡ false)
      × ((is_pin context.establish_pace_channel_type
            && is_auth context.kind
            && (length password == 5))
          ≡ false)
unfolding run_establish_pace_channel call_pace_command transport_password abort_pace
    abort_to_change_pin
run_establish_pace_channel-sent_password connection context command password e basic h sent =
    ground arith
