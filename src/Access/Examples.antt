-- ===== src/Access/Examples.antt =====
-- The theorems on access rights at concrete requests.
use ausweis_app.Prelude.{
  ◌+◌, ◌<◌, ◌≡◌, refl, true, false, ◌&&◌, ◌||◌, none, some, List, [], ◌∷◌, if◌then◌else◌, arith,
}
use ausweis_app.Bytes.{Bytes}
use ausweis_app.Access.Rights.{
  AccessRight, list_contains, can_allowed, pin_management, is_empty_set, elements, all_rights,
}
use ausweis_app.Access.Chat.{get_access_rights, get_access_role}
use ausweis_app.Access.Chat.Bits.{IsTemplate}
use ausweis_app.Access.Manager.{
  AccessRightManager, Eac1, build_manager, assign, encode_effective_chat,
  remove_forbidden_access_rights, offered_rights, decide_can_allowed, add, take_away,
}
use ausweis_app.Access.Manager.Runs.{Operation, run, apply, run-granted}
use ausweis_app.Access.Manager.Assign.{assign-effective}
use ausweis_app.Access.Manager.Sent.{run-encode_effective_chat}

-- A terminal that may read DG4 (right 11), DG5 (12) and the age, with CAN_ALLOWED and role AT.
abbrev terminal : Bytes
terminal = 0x00 ∷ 0x00 ∷ 0x00 ∷ 0x18 ∷ 0x11 ∷ []

-- The service requires DG4, and offers DG5, the age without a date for it, and DG6.
abbrev request : Eac1
request = record {
  required_chat = some (0x00 ∷ 0x00 ∷ 0x00 ∷ 0x08 ∷ 0x00 ∷ []);
  optional_chat = some (0x00 ∷ 0x00 ∷ 0x00 ∷ 0x30 ∷ 0x01 ∷ []);
  auxiliary_data = none;
}

abbrev calls : List Operation
calls =
    Operation.minus 11
    ∷ Operation.minus 12
    ∷ Operation.plus 13
    ∷ Operation.equals (12 ∷ 4 ∷ [])
    ∷ Operation.plus 0
    ∷ []

terminal-IsTemplate : IsTemplate terminal
terminal-IsTemplate =
    (refl, (omega arith, (omega arith, (omega arith, (omega arith, (omega arith, tt))))))

-- What is granted in the end: the required right and, of those asked for, the offered one.
granted_of : AccessRightManager → List AccessRight
unfolding elements all_rights
granted_of manager = elements all_rights manager.effective_rights

calls_test : granted_of (run calls (build_manager true terminal request)) ≡ 12 ∷ 11 ∷ 4 ∷ []
unfolding granted_of run build_manager apply assign add take_away remove_forbidden_access_rights
    decide_can_allowed offered_rights is_empty_set
calls_test = refl

disabled_test : granted_of (build_manager false terminal request) ≡ 12 ∷ 11 ∷ []
unfolding granted_of build_manager remove_forbidden_access_rights decide_can_allowed offered_rights
    is_empty_set get_access_rights
disabled_test = refl

run-granted_example :
    let manager = run calls (build_manager false terminal request) in
    ((right : AccessRight)
      → (manager.required_rights right ≡ true → manager.effective_rights right ≡ true)
        × (manager.effective_rights right ≡ true
            → ((manager.required_rights right || manager.optional_rights right) ≡ true)
              × (get_access_rights terminal right ≡ true)))
    × (manager.effective_rights can_allowed ≡ true
        → (false || get_access_rights terminal pin_management) ≡ true)
run-granted_example = run-granted false terminal request calls

assign-effective_example :
    ((right : AccessRight)
      → (assign (12 ∷ 13 ∷ []) (build_manager true terminal request)).effective_rights right ≡ (
          (build_manager true terminal request).required_rights right
          || (list_contains (12 ∷ 13 ∷ []) right
              && (build_manager true terminal request).optional_rights right)))
    × ((assign (12 ∷ 13 ∷ []) (build_manager true terminal request)).changes ≡ (
        if (build_manager true terminal request).blocked
        then (build_manager true terminal request).changes
        else (build_manager true terminal request).changes + 1))
assign-effective_example = assign-effective (12 ∷ 13 ∷ []) (build_manager true terminal request)

run-encode_effective_chat_example :
    let manager = run calls (build_manager true terminal request) in
    (chat : Bytes) × (encode_effective_chat (some manager) ≡ some chat)
    × ((right : AccessRight)
        → right < 38
        → (get_access_rights chat right ≡ manager.effective_rights right)
          × (get_access_rights chat right ≡ true → get_access_rights terminal right ≡ true))
    × (get_access_role chat ≡ get_access_role terminal)
    × IsTemplate chat
run-encode_effective_chat_example =
    run-encode_effective_chat true terminal request calls terminal-IsTemplate
