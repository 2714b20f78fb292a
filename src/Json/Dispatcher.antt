-- ===== src/Json/Dispatcher.antt =====
-- ui/json/MessageDispatcher.cpp, ui/json/messages/MsgContext.cpp and MsgTypes.h: the messages to
-- the states of a workflow, and which handler a command gets.
pub mod Active
use ausweis_app.Prelude.{
  Bool, true, false, not, ◌&&◌, ◌||◌, Option, none, some, List, [], ◌∷◌, ◌++◌, if◌then◌else◌,
}
use ausweis_app.Card.PasswordId.{PacePasswordId}
use ausweis_app.Workflow.Context.{Context}

pub data MsgType : Type 0 where
  invalid unknown_command internal_error log info api_level reader reader_list bad_state auth
        change_pin certificate access_rights insert_card enter_pin enter_new_pin enter_can
        enter_puk :
      MsgType

pub data MsgCmdType : Type 0 where
  undefined accept cancel interrupt get_log get_info get_api_level set_api_level get_reader
        get_reader_list run_auth run_change_pin get_certificate get_access_rights set_access_rights
        set_pin set_new_pin set_can set_puk :
      MsgCmdType

-- A message that was sent: its type, and whether its data is not empty.
pub record Msg : Type 0 where
  pub msg_type : MsgType
  pub has_data : Bool

abbrev pub no_msg : Msg
no_msg = record { msg_type = internal_error; has_data = false }

-- The level of the interface has one value, and is left out.
pub record MsgContext : Type 0 where
  pub state_messages : List Msg
  pub context : Option Context

unfoldable pub is_active_workflow : MsgContext → Bool
is_active_workflow msgs = elim msgs.context [ none ↦ false | some context ↦ true ]

abbrev pub last_of : List Msg → Msg
last_of [] = no_msg
last_of (msg ∷ []) = msg
last_of (msg ∷ next ∷ rest) = last_of (next ∷ rest)

unfoldable pub get_last_state_msg : MsgContext → Msg
get_last_state_msg msgs = last_of msgs.state_messages

unfoldable pub add_state_msg : Msg → MsgContext → MsgContext
add_state_msg msg msgs = record msgs { state_messages = msgs.state_messages ++ (msg ∷ []) }

abbrev pub cleared : MsgContext
cleared = record { state_messages = []; context = none }

-- `init`, as far as it changes the context of the dispatcher.
unfoldable pub init : Context → MsgContext → MsgContext
init context msgs = record cleared { context = some context }

-- `reset`, which `finish` ends with.
unfoldable pub reset : MsgContext → MsgContext
reset msgs = cleared

-- The names of the states that the interface knows; `other` is any other name that is not empty.
pub data StateName : Type 0 where
  state_enter_pace_password state_enter_new_pace_pin state_edit_access_rights state_select_reader
        other empty :
      StateName

unfoldable pub get_state_msg_type : StateName → PacePasswordId → MsgType
get_state_msg_type state_enter_pace_password PacePasswordId.pace_pin = enter_pin
get_state_msg_type state_enter_pace_password PacePasswordId.pace_can = enter_can
get_state_msg_type state_enter_pace_password PacePasswordId.pace_puk = enter_puk
get_state_msg_type state_enter_pace_password _ = internal_error
get_state_msg_type state_enter_new_pace_pin id = enter_new_pin
get_state_msg_type state_edit_access_rights id = access_rights
get_state_msg_type state_select_reader id = insert_card
get_state_msg_type other id = internal_error
get_state_msg_type empty id = internal_error

abbrev pub approve : Context → Context
approve context = record context { state_approved = true }

abbrev pub has_message : MsgType → Bool
has_message type = elim type [
  | enter_pin ↦ true
  | enter_new_pin ↦ true
  | enter_can ↦ true
  | enter_puk ↦ true
  | access_rights ↦ true
  | _ ↦ false
]

abbrev pub is_insert_card : MsgType → Bool
is_insert_card type = elim type [ insert_card ↦ true | _ ↦ false ]

-- `createForStateChange`, with whether a card is inserted in any reader.
unfoldable pub create_for_state_change : Bool → MsgType → Context → Msg × Context
create_for_state_change card_inserted type context =
    if context.workflow_cancelled
    then (no_msg, approve context)
    else if has_message type
    then (record { msg_type = type; has_data = true }, context)
    else if is_insert_card type
    then (record { msg_type = insert_card; has_data = not card_inserted }, approve context)
    else (no_msg, approve context)

abbrev pub is_empty_name : StateName → Bool
is_empty_name name = elim name [ empty ↦ true | _ ↦ false ]

-- `processStateChange`: the message that is sent, and the context of the dispatcher.
unfoldable pub process_state_change : Bool → StateName → MsgContext → Msg × MsgContext
unfolding create_for_state_change get_state_msg_type add_state_msg
process_state_change card_inserted state msgs = elim msgs.context [
  | none ↦ (record { msg_type = internal_error; has_data = true }, msgs)
  | some context ↦
      if is_empty_name state
      then (record { msg_type = internal_error; has_data = true }, msgs)
      else (let type = get_state_msg_type state context.establish_pace_channel_type in
          let (msg, context') = create_for_state_change card_inserted type context in
          (msg, add_state_msg msg (record msgs { context = some context' })))
]

-- `processReaderChange` after the message on the reader.
unfoldable pub process_reader_change : Bool → MsgContext → MsgContext
unfolding add_state_msg get_last_state_msg
process_reader_change card_inserted msgs =
    let last = get_last_state_msg msgs in
    if is_insert_card last.msg_type && not last.has_data
    then add_state_msg (record { msg_type = insert_card; has_data = not card_inserted }) msgs
    else msgs

-- What `createForCommand` does with a command whose name is not empty and was looked up in
-- `MsgCmdType`: the handler of the command, or an answer without one. A release
-- build knows no internal command, and only iOS knows INTERRUPT.
pub data Handling : Type 0 where
  run_handler : MsgCmdType → Handling
  answer_bad_state answer_unknown_command : Handling

-- `handleCurrentState` for one type of message.
unfoldable pub handle_current_state : MsgCmdType → (MsgType → Bool) → MsgContext → Handling
unfolding get_last_state_msg
handle_current_state command is_expected msgs =
    if is_expected (get_last_state_msg msgs).msg_type then run_handler command else answer_bad_state

unfoldable pub if_inactive : MsgCmdType → MsgContext → Handling
unfolding is_active_workflow
if_inactive command msgs = if is_active_workflow msgs then answer_bad_state else run_handler command

abbrev pub is_access_rights : MsgType → Bool
is_access_rights type = elim type [ access_rights ↦ true | _ ↦ false ]

abbrev pub is_enter_pin : MsgType → Bool
is_enter_pin type = elim type [ enter_pin ↦ true | _ ↦ false ]

abbrev pub is_enter_new_pin : MsgType → Bool
is_enter_new_pin type = elim type [ enter_new_pin ↦ true | _ ↦ false ]

abbrev pub is_enter_can : MsgType → Bool
is_enter_can type = elim type [ enter_can ↦ true | _ ↦ false ]

abbrev pub is_enter_puk : MsgType → Bool
is_enter_puk type = elim type [ enter_puk ↦ true | _ ↦ false ]

unfoldable pub create_for_command : MsgCmdType → MsgContext → Handling
unfolding handle_current_state if_inactive is_active_workflow
create_for_command undefined msgs = answer_unknown_command
create_for_command accept msgs = handle_current_state accept is_access_rights msgs
create_for_command cancel msgs =
    if is_active_workflow msgs then run_handler cancel else answer_bad_state
create_for_command interrupt msgs = answer_unknown_command
create_for_command get_log msgs = answer_unknown_command
create_for_command get_info msgs = run_handler get_info
create_for_command get_api_level msgs = run_handler get_api_level
create_for_command set_api_level msgs = run_handler set_api_level
create_for_command get_reader msgs = run_handler get_reader
create_for_command get_reader_list msgs = run_handler get_reader_list
create_for_command run_auth msgs = if_inactive run_auth msgs
create_for_command run_change_pin msgs = if_inactive run_change_pin msgs
create_for_command get_certificate msgs = handle_current_state get_certificate is_access_rights msgs
create_for_command set_pin msgs = handle_current_state set_pin is_enter_pin msgs
create_for_command set_new_pin msgs = handle_current_state set_new_pin is_enter_new_pin msgs
create_for_command set_can msgs = handle_current_state set_can is_enter_can msgs
create_for_command set_puk msgs = handle_current_state set_puk is_enter_puk msgs
create_for_command get_access_rights msgs =
    handle_current_state get_access_rights is_access_rights msgs
create_for_command set_access_rights msgs =
    handle_current_state set_access_rights is_access_rights msgs
