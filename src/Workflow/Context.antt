-- ===== src/Workflow/Context.antt =====
-- workflows/base/context/WorkflowContext.cpp, with what AuthContext and ChangePinContext add for
-- the states of the PACE channel. The signals that only tell the user interface of a change are
-- left out; a timer is its start, in milliseconds of the clock that `Environment` reads.
use ausweis_app.Prelude.{
  ℕ, ◌+◌, ◌-◌, Bool, true, false, not, ◌&&◌, ◌||◌, Option, none, some, List, [], ltb, leb, ◌==◌,
  if◌then◌else◌,
}
use ausweis_app.Bytes.{Bytes, same_bytes}
use ausweis_app.Card.PasswordId.{PacePasswordId}
use ausweis_app.Card.ReturnCode.{CardReturnCode, GlobalStatus, is_error, is_no_error}
use ausweis_app.Workflow.Reader.{ReaderInfo, CardConnection, no_reader}

-- The class of the context, with the data of an authentication that the PACE channel is given.
pub data Kind : Type 0 where
  auth : (can_allowed : Bool) (effective_chat certificate_description : Bytes) → Kind
  change_pin : (request_transport_pin : Bool) → Kind

pub record Context : Type 0 where
  pub kind : Kind
  pub state_approved : Bool
  pub reader_name : Bytes
  pub card_connection : Option CardConnection
  pub card_vanished_count : ℕ
  pub card_vanished_timer : Option ℕ
  pub can : Bytes
  pub pin : Bytes
  pub puk : Bytes
  pub new_pin : Bytes
  pub establish_pace_channel_type : PacePasswordId
  pub expected_reader : ReaderInfo
  pub last_pace_result : CardReturnCode
  pub status : GlobalStatus
  pub error_reported_to_user : Bool
  pub pace_result_reported_to_user : Bool
  pub workflow_cancelled : Bool
  pub workflow_cancelled_in_state : Bool
  pub insufficient_apdu_length : Bool
  pub skip_redirect : Bool

-- What the reader manager and the clock say while an event is handled.
pub record Environment : Type 0 where
  -- `getReaderInfos` of the plug-in types of the context, and `getReaderInfo` of a name.
  pub reader_infos : List ReaderInfo
  pub reader_info : Bytes → ReaderInfo
  pub now : ℕ
  pub used_as_sdk : Bool

unfoldable pub is_can_allowed_mode : Context → Bool
is_can_allowed_mode context = elim context.kind [
  | Kind.auth can_allowed chat description ↦ can_allowed
  | Kind.change_pin transport ↦ false
]

unfoldable pub set_status : GlobalStatus → Context → Context
set_status status context = record context { status = status; error_reported_to_user = false }

-- `AbstractState::updateStatus`: the first error stays.
unfoldable pub update_status : GlobalStatus → Context → Context
unfolding set_status
update_status status context =
    if is_error status && is_no_error context.status then set_status status context else context

unfoldable pub reset_card_connection : Context → Context
reset_card_connection context = record context { card_connection = none }

unfoldable pub is_npa_repositioning_required : ℕ → Context → Bool
is_npa_repositioning_required now context =
    leb 10 context.card_vanished_count
    || elim context.card_vanished_timer [ none ↦ false | some start ↦ ltb 4000 (now - start) ]

unfoldable pub set_npa_position_verified : Context → Context
set_npa_position_verified context = record context {
  card_vanished_count = 0;
  card_vanished_timer = none;
}

abbrev pub is_running : Option ℕ → Bool
is_running none = false
is_running (some start) = true

unfoldable pub handle_wrong_npa_position : ℕ → Context → Context
unfolding reset_card_connection
handle_wrong_npa_position now context =
    let timer =
      if ltb 0 context.card_vanished_count && not (is_running context.card_vanished_timer)
      then some now
      else context.card_vanished_timer in
    reset_card_connection (record context {
      card_vanished_timer = timer;
      card_vanished_count = context.card_vanished_count + 1;
    })

-- `resetPacePasswords`, which `ChangePinContext` overrides.
unfoldable pub reset_pace_passwords : Context → Context
reset_pace_passwords context = elim context.kind [
  | Kind.auth can_allowed chat description ↦ record context { can = []; pin = []; puk = [] }
  | Kind.change_pin transport ↦ record context { new_pin = []; can = []; pin = []; puk = [] }
]

unfoldable pub set_last_pace_result : CardReturnCode → Context → Context
set_last_pace_result code context = record context {
  pace_result_reported_to_user = false;
  last_pace_result = code;
}

unfoldable pub reset_last_pace_result : Context → Context
unfolding set_last_pace_result
reset_last_pace_result context = set_last_pace_result CardReturnCode.ok context

unfoldable pub remember_reader : Context → Context
remember_reader context = elim context.card_connection [
  | none ↦ record context { expected_reader = no_reader }
  | some connection ↦ record context { expected_reader = connection.reader_info }
]

unfoldable pub is_expected_reader : Context → Bool
is_expected_reader context = same_bytes context.expected_reader.name context.reader_name

unfoldable pub get_expected_retry_counter : Context → Option ℕ
get_expected_retry_counter context = context.expected_reader.retry_counter

unfoldable pub set_expected_retry_counter : Option ℕ → Context → Context
set_expected_retry_counter counter context = record context {
  expected_reader = record context.expected_reader { retry_counter = counter };
}

unfoldable pub set_establish_pace_channel_type : PacePasswordId → Context → Context
set_establish_pace_channel_type id context = record context { establish_pace_channel_type = id }

-- `==` of two retry counters.
abbrev pub same_counter : Option ℕ → Option ℕ → Bool
same_counter none none = true
same_counter none (some n) = false
same_counter (some m) none = false
same_counter (some m) (some n) = m == n
