-- ===== src/Json/Dispatcher/Active.antt =====
-- MessageDispatcher: a command reaches the context of a workflow only while there is one.
use ausweis_app.Prelude.{Bool, true, false, ◌||◌, ◌≡◌, is_empty, arith}
use ausweis_app.Workflow.Context.{Context}
use ausweis_app.Json.Dispatcher.{
  MsgCmdType, MsgContext, is_active_workflow, get_last_state_msg, add_state_msg, init, reset,
  StateName, process_state_change, process_reader_change, answer_bad_state, handle_current_state,
  create_for_command,
}

-- Messages are kept only for a workflow.
unfoldable pub is_consistent : MsgContext → Bool
is_consistent msgs = is_empty msgs.state_messages || is_active_workflow msgs

-- Starting and ending a workflow, a change of its state and a change of a reader keep messages
-- to a state only for a workflow.
pub is_consistent_lem :
    (context : Context) (card_inserted : Bool) (state : StateName) (msgs : MsgContext)
    → is_consistent msgs ≡ true
    → ((is_consistent (init context msgs) ≡ true) × (is_consistent (reset msgs) ≡ true))
      × (is_consistent (process_state_change card_inserted state msgs).1 ≡ true)
      × (is_consistent (process_reader_change card_inserted msgs) ≡ true)
unfolding is_consistent init reset process_state_change process_reader_change is_active_workflow
    add_state_msg get_last_state_msg
is_consistent_lem context card_inserted state msgs h = ground arith

-- The commands whose handlers use the context of the workflow.
abbrev needs_workflow : MsgCmdType → Bool
needs_workflow command = elim command [
  | MsgCmdType.accept ↦ true
  | MsgCmdType.cancel ↦ true
  | MsgCmdType.get_certificate ↦ true
  | MsgCmdType.get_access_rights ↦ true
  | MsgCmdType.set_access_rights ↦ true
  | MsgCmdType.set_pin ↦ true
  | MsgCmdType.set_new_pin ↦ true
  | MsgCmdType.set_can ↦ true
  | MsgCmdType.set_puk ↦ true
  | _ ↦ false
]

-- Where messages are kept only for a workflow and none is active, every command whose handler
-- uses the workflow is answered with a bad state.
pub create_for_command-is_active_workflow :
    (command : MsgCmdType) (msgs : MsgContext)
    → is_consistent msgs ≡ true
    → needs_workflow command ≡ true
    → is_active_workflow msgs ≡ false
    → create_for_command command msgs ≡ answer_bad_state
unfolding create_for_command handle_current_state is_consistent is_active_workflow
    get_last_state_msg
create_for_command-is_active_workflow command msgs h needs inactive = ground arith
