-- ===== src/Workflow/States.antt =====
-- workflows/base/states: the states of the PACE channel, one function for each run and each
-- handler. A state answers with the signal that it fires or the card command that it calls.
-- Assertions are empty, as in a release build.
pub mod Maintaining
use ausweis_app.Prelude.{
  ℕ, Bool, true, false, not, ◌&&◌, ◌||◌, Option, none, some, List, [], ◌∷◌, ◌==◌, if◌then◌else◌,
  length, is_empty, replicate,
}
use ausweis_app.Bytes.{Bytes, same_bytes}
use ausweis_app.Card.PasswordId.{PacePasswordId}
use ausweis_app.Card.ReturnCode.{
  CardReturnCode, GlobalStatus, is_error, is_no_error, to_global_status,
}
use ausweis_app.Workflow.Reader.{PlugInType, ReaderInfo, CardConnection, sufficient_apdu_length}
use ausweis_app.Workflow.Context.{
  Kind, Context, Environment, is_can_allowed_mode, update_status, reset_card_connection,
  is_npa_repositioning_required, set_npa_position_verified, handle_wrong_npa_position,
  reset_pace_passwords, set_last_pace_result, reset_last_pace_result, remember_reader,
  is_expected_reader, get_expected_retry_counter, set_expected_retry_counter,
  set_establish_pace_channel_type, same_counter,
}

-- The signals that the states fire.
pub data Signal : Type 0 where
  fire_continue fire_abort fire_retry fire_no_card_connection fire_force_update_retry_counter
        fire_enter_pace_password fire_establish_pace_channel fire_pace_channel_established
        fire_pace_channel_inoperative fire_abort_and_unfortunate_card_position :
      Signal

pub data CardCommand : Type 0 where
  create_card_connection : (reader_name : Bytes) → CardCommand
  update_retry_counter : CardCommand
  unblock_pin : (puk : Bytes) → CardCommand
  establish_pace_channel :
      (id : PacePasswordId) (password effective_chat certificate_description : Bytes) → CardCommand
  destroy_pace_channel : CardCommand

-- `unreachable` is a place that the source marks so.
pub data Reaction : Type 0 where
  fire : Signal → Reaction
  call : CardCommand → Reaction
  wait unreachable : Reaction

abbrev pub Answer : Type 0
Answer = Reaction × Context

abbrev pub abort : Context → Answer
abort context = (fire Signal.fire_abort, context)

abbrev pub proceed : Context → Answer
proceed context = (fire Signal.fire_continue, context)

-- StateMaintainCardConnection

-- The groups of codes in the switch of `run`.
pub data PaceResultClass : Type 0 where
  unrecoverable wrong_password card_gone unblocked fine : PaceResultClass

unfoldable pub pace_result_class : CardReturnCode → PaceResultClass
pace_result_class code = elim code [
  | CardReturnCode.retry_allowed ↦ PaceResultClass.card_gone
  | CardReturnCode.card_not_found ↦ PaceResultClass.card_gone
  | CardReturnCode.ok ↦ PaceResultClass.fine
  | CardReturnCode.ok_puk ↦ PaceResultClass.unblocked
  | CardReturnCode.invalid_can ↦ PaceResultClass.wrong_password
  | CardReturnCode.invalid_password ↦ PaceResultClass.wrong_password
  | CardReturnCode.invalid_pin ↦ PaceResultClass.wrong_password
  | CardReturnCode.invalid_pin_2 ↦ PaceResultClass.wrong_password
  | CardReturnCode.invalid_pin_3 ↦ PaceResultClass.wrong_password
  | CardReturnCode.invalid_puk ↦ PaceResultClass.wrong_password
  | CardReturnCode.new_pin_mismatch ↦ PaceResultClass.wrong_password
  | CardReturnCode.new_pin_invalid_length ↦ PaceResultClass.wrong_password
  | CardReturnCode.pin_not_blocked ↦ PaceResultClass.wrong_password
  | CardReturnCode.pin_blocked ↦ PaceResultClass.wrong_password
  | _ ↦ PaceResultClass.unrecoverable
]

-- `run` after the switch.
unfoldable pub check_card_connection : Context → Answer
check_card_connection context = elim context.card_connection [
  | none ↦ (fire Signal.fire_no_card_connection, context)
  | some connection ↦ proceed context
]

unfoldable pub run_maintain_card_connection : Context → Answer
unfolding check_card_connection
run_maintain_card_connection context =
    if is_error context.status
    then abort context
    else elim (pace_result_class context.last_pace_result) [
      | PaceResultClass.unrecoverable ↦
          abort (update_status (to_global_status context.last_pace_result) context)
      | PaceResultClass.wrong_password ↦
          (let cleared = reset_pace_passwords context in
            elim context.card_connection [
              | none ↦ (fire Signal.fire_no_card_connection, cleared)
              | some connection ↦ (fire Signal.fire_force_update_retry_counter, cleared)
            ])
      | PaceResultClass.card_gone ↦
          check_card_connection (reset_last_pace_result (reset_card_connection context))
      | PaceResultClass.unblocked ↦
          (fire Signal.fire_force_update_retry_counter, reset_last_pace_result context)
      | PaceResultClass.fine ↦ check_card_connection context
    ]

-- StateClearPacePasswords and StateUnfortunateCardPosition
unfoldable pub run_clear_pace_passwords : Context → Answer
run_clear_pace_passwords context = proceed (reset_pace_passwords context)

unfoldable pub run_unfortunate_card_position : Context → Answer
run_unfortunate_card_position context = proceed (set_npa_position_verified context)

-- StateEnterPacePassword
unfoldable pub run_enter_pace_password : Context → Answer
run_enter_pace_password context = if is_error context.status then abort context else proceed context

-- StateSelectReader
unfoldable pub requires_card : PlugInType → Bool
requires_card PlugInType.unknown = false
requires_card PlugInType.pcsc = true
requires_card PlugInType.nfc = false
requires_card PlugInType.remote = true

unfoldable pub is_candidate : ReaderInfo → Bool
is_candidate info = info.connected && (not (requires_card info.plug_in_type) || info.eid_card)

-- The readers of sufficient APDU length, and whether a candidate is none of them.
pub selectable_readers : List ReaderInfo → List ReaderInfo
selectable_readers [] = []
selectable_readers (info ∷ infos) =
    let rest = selectable_readers infos in
    if is_candidate info && sufficient_apdu_length info then info ∷ rest else rest

pub some_insufficient : List ReaderInfo → Bool
some_insufficient [] = false
some_insufficient (info ∷ infos) =
    is_candidate info && not (sufficient_apdu_length info) || some_insufficient infos

unfoldable pub on_reader_info_changed : Environment → Context → Answer
on_reader_info_changed env context =
    let marked = record context { insufficient_apdu_length = some_insufficient env.reader_infos } in
    elim (selectable_readers env.reader_infos) [
      | [] ↦ (wait, marked)
      | info ∷ infos ↦ proceed (record marked { reader_name = info.name })
    ]

-- StateConnectCard
unfoldable pub on_card_inserted : Environment → Context → Answer
on_card_inserted env context =
    let info = env.reader_info context.reader_name in
    if info.eid_card then (call (create_card_connection info.name), context) else (wait, context)

unfoldable pub on_connect_done : Environment → Option CardConnection → Context → Answer
on_connect_done env none context = abort context
on_connect_done env (some connection) context =
    let connected = record context { card_connection = some connection } in
    let info = env.reader_info context.reader_name in
    if sufficient_apdu_length info && (not info.pin_deactivated || is_can_allowed_mode context)
    then proceed connected
    else if info.pin_deactivated && not (is_can_allowed_mode context)
    then if env.used_as_sdk
      then (wait, connected)
      else abort (update_status GlobalStatus.card_pin_deactivated connected)
    else (wait, connected)

unfoldable pub on_reader_removed : Bytes → Context → Answer
on_reader_removed name context =
    if same_bytes name context.reader_name
    then (fire Signal.fire_retry, context)
    else (wait, context)

-- StateUpdateRetryCounter
unfoldable pub run_update_retry_counter : Context → Answer
run_update_retry_counter context = elim context.card_connection [
  | none ↦ abort context
  | some connection ↦ (call update_retry_counter, context)
]

unfoldable pub is_ok : CardReturnCode → Bool
is_ok code = elim code [ CardReturnCode.ok ↦ true | _ ↦ false ]

unfoldable pub on_update_retry_counter_done : CardReturnCode → Context → Answer
unfolding is_ok
on_update_retry_counter_done code context =
    if not (is_ok code) then abort (reset_card_connection context) else proceed context
