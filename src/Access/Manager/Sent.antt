-- ===== src/Access/Manager/Sent.antt =====
-- The CHAT that an authentication sends, after any calls of the operators of its manager.
use ausweis_app.Prelude.{◌<◌, ◌≡◌, refl, sym, ◌∙◌, Bool, true, some, List, [], ◌∷◌, arith}
use ausweis_app.Bytes.{Bytes}
use ausweis_app.Access.Rights.{AccessRight}
use ausweis_app.Access.Chat.{get_access_rights, get_access_role}
use ausweis_app.Access.Chat.Bits.{IsTemplate}
use ausweis_app.Access.Manager.{
  AccessRightManager, Eac1, build_manager, decide_can_allowed, add, take_away, add_all, assign,
  fire_changed, effective_chat, encode_effective_chat,
}
use ausweis_app.Access.Manager.Runs.{Operation, apply, run, run-granted}
use ausweis_app.Access.Manager.Encoding.{get_access_rights-effective_chat}

fire_changed-terminal :
    (manager : AccessRightManager) → (fire_changed manager).terminal_cvc ≡ manager.terminal_cvc
unfolding fire_changed
fire_changed-terminal manager = ground arith

add-terminal :
    (right : AccessRight) (manager : AccessRightManager)
    → (add right manager).terminal_cvc ≡ manager.terminal_cvc
unfolding add fire_changed
add-terminal right manager = ground arith

add_all-terminal :
    (rights : List AccessRight) (manager : AccessRightManager)
    → (add_all rights manager).terminal_cvc ≡ manager.terminal_cvc
unfolding add_all
add_all-terminal [] manager = refl
add_all-terminal (right ∷ rights) manager =
    let blocked : AccessRightManager = record manager { blocked = true } in
    add_all-terminal rights (record (add right blocked) { blocked = manager.blocked })
    ∙ add-terminal right blocked

apply-terminal :
    (operation : Operation) (manager : AccessRightManager)
    → (apply operation manager).terminal_cvc ≡ manager.terminal_cvc
unfolding apply assign take_away fire_changed
apply-terminal (Operation.plus right) manager = add-terminal right manager
apply-terminal (Operation.minus right) manager = ground arith
apply-terminal (Operation.equals rights) manager =
    let restarted : AccessRightManager = record manager {
      effective_rights = manager.required_rights;
    } in
    fire_changed-terminal (add_all rights restarted) ∙ add_all-terminal rights restarted

run-terminal :
    (operations : List Operation) (manager : AccessRightManager)
    → (run operations manager).terminal_cvc ≡ manager.terminal_cvc
unfolding run
run-terminal [] manager = refl
run-terminal (operation ∷ operations) manager =
    run-terminal operations (apply operation manager) ∙ apply-terminal operation manager

build_manager-terminal :
    (enabled : Bool) (terminal : Bytes) (eac1 : Eac1)
    → (build_manager enabled terminal eac1).terminal_cvc ≡ some terminal
unfolding build_manager decide_can_allowed
build_manager-terminal enabled terminal eac1 = refl

encode_some :
    (manager : AccessRightManager) (template : Bytes)
    → manager.terminal_cvc ≡ some template
    → encode_effective_chat (some manager) ≡ some (effective_chat template manager.effective_rights)
unfolding encode_effective_chat
encode_some manager template h = rw h refl

-- For a certificate whose CHAT is a template of five bytes, after any calls of the operators, a
-- CHAT is encoded that is again such a template, has the role of the certificate, is read back
-- to exactly the granted rights among those below 38, and has none that the certificate has
-- not.
pub run-encode_effective_chat :
    (enabled : Bool) (terminal : Bytes) (eac1 : Eac1) (operations : List Operation)
    → IsTemplate terminal
    → let manager = run operations (build_manager enabled terminal eac1) in
      (chat : Bytes) × (encode_effective_chat (some manager) ≡ some chat)
      × ((right : AccessRight)
          → right < 38
          → (get_access_rights chat right ≡ manager.effective_rights right)
            × (get_access_rights chat right ≡ true → get_access_rights terminal right ≡ true))
      × (get_access_role chat ≡ get_access_role terminal)
      × IsTemplate chat
run-encode_effective_chat enabled terminal eac1 operations t =
    let manager = run operations (build_manager enabled terminal eac1) in
    let found = get_access_rights-effective_chat manager.effective_rights terminal t in
    let granted = (run-granted enabled terminal eac1 operations).0 in
    (
      effective_chat terminal manager.effective_rights,
      encode_some manager terminal (
          run-terminal operations (build_manager enabled terminal eac1)
          ∙ build_manager-terminal enabled terminal eac1),
      (λ right small. (
        found.0 right small,
        λ asked. ((granted right).1 (sym (found.0 right small) ∙ asked)).1,
      )),
      found.1,
      found.2,
    )
