-- ===== src/Access/Manager.antt =====
-- workflows/base/context/AccessRightManager.cpp: the rights that the user grants, between what the
-- service requires and what its certificate allows; with what AuthContext.cpp does with them. A
-- certificate is here the template of its CHAT.
pub mod Runs
pub mod Assign
pub mod Encoding
pub mod Sent
use ausweis_app.Prelude.{
  ℕ, ◌+◌, Bool, true, false, not, ◌&&◌, ◌||◌, Option, none, some, List, [], ◌∷◌, if◌then◌else◌,
  is_empty,
}
use ausweis_app.Bytes.{Bytes}
use ausweis_app.Access.Rights.{
  AccessRight, Rights, all_displayed_ordered_rights, list_contains, is_empty_set, no_rights, insert,
  remove, unite, intersect, subtract, age_verification, community_id_verification, can_allowed,
  pin_management,
}
use ausweis_app.Access.Chat.{get_access_rights, set_access_rights, remove_all_access_rights}

-- `AuthenticatedAuxiliaryData`, by what the manager asks it.
pub record AuxiliaryData : Type 0 where
  pub has_age_verification_date : Bool
  pub has_community_id : Bool

-- `DIDAuthenticateEAC1`, by what the manager asks it; a CHAT is its template.
pub record Eac1 : Type 0 where
  pub required_chat : Option Bytes
  pub optional_chat : Option Bytes
  pub auxiliary_data : Option AuxiliaryData

-- `changes` counts the signals `fireEffectiveAccessRightsChanged` that were not blocked.
pub record AccessRightManager : Type 0 where
  pub terminal_cvc : Option Bytes
  pub optional_rights : Rights
  pub effective_rights : Rights
  pub required_rights : Rights
  pub blocked : Bool
  pub changes : ℕ

abbrev pub empty_manager : Option Bytes → AccessRightManager
empty_manager terminal = record {
  terminal_cvc = terminal;
  optional_rights = no_rights;
  effective_rights = no_rights;
  required_rights = no_rights;
  blocked = false;
  changes = 0;
}

abbrev pub has_age : Option AuxiliaryData → Bool
has_age none = false
has_age (some auxiliary) = auxiliary.has_age_verification_date

abbrev pub has_community : Option AuxiliaryData → Bool
has_community none = false
has_community (some auxiliary) = auxiliary.has_community_id

abbrev pub allowed_rights : Bytes → Rights
unfolding get_access_rights list_contains all_displayed_ordered_rights
allowed_rights terminal right =
    get_access_rights terminal right && list_contains all_displayed_ordered_rights right

abbrev pub drop_unless : Bool → AccessRight → Rights → Rights
drop_unless specified right rights =
    if rights right && not specified then remove right rights else rights

unfoldable pub remove_forbidden_access_rights : Bytes → Eac1 → Rights → Rights
unfolding allowed_rights
remove_forbidden_access_rights terminal eac1 rights =
    drop_unless (has_community eac1.auxiliary_data) community_id_verification (
      drop_unless (has_age eac1.auxiliary_data) age_verification
        (intersect rights (allowed_rights terminal)))

abbrev pub requested : Bytes → Eac1 → Option Bytes → Rights
requested terminal eac1 none = no_rights
requested terminal eac1 (some chat) =
    remove_forbidden_access_rights terminal eac1 (get_access_rights chat)

-- The optional rights, where nothing is asked for those of the certificate.
unfoldable pub offered_rights : Rights → Rights → Rights → Rights
offered_rights required asked of_certificate =
    let optional =
      if not (is_empty_set asked) && not (is_empty_set required)
      then subtract asked required
      else asked in
    if is_empty_set optional && is_empty_set required then of_certificate else optional

-- The last step of the constructor: CAN_ALLOWED is never required, and offered only where the
-- certificate has it and it is enabled, in the SDK or by the settings, or with PIN_MANAGEMENT.
unfoldable pub decide_can_allowed : Bool → Bytes → Rights → Rights → AccessRightManager
decide_can_allowed can_allowed_enabled terminal required offered =
    let pin_allowed = can_allowed_enabled || get_access_rights terminal pin_management in
    let final_required = remove can_allowed required in
    let final_optional =
      if get_access_rights terminal can_allowed && pin_allowed
      then insert can_allowed offered
      else remove can_allowed offered in
    record (empty_manager (some terminal)) {
      optional_rights = final_optional;
      effective_rights = unite final_required final_optional;
      required_rights = final_required;
    }

unfoldable pub build_manager : Bool → Bytes → Eac1 → AccessRightManager
unfolding remove_forbidden_access_rights offered_rights decide_can_allowed get_access_rights
build_manager can_allowed_enabled terminal eac1 =
    let required = requested terminal eac1 eac1.required_chat in
    let asked = requested terminal eac1 eac1.optional_chat in
    decide_can_allowed can_allowed_enabled terminal required (
      offered_rights required asked
        (remove_forbidden_access_rights terminal eac1 (get_access_rights terminal)))

unfoldable pub construct : Bool → Option Eac1 → Option Bytes → AccessRightManager
unfolding build_manager
construct can_allowed_enabled none terminal = empty_manager terminal
construct can_allowed_enabled (some eac1) none = empty_manager none
construct can_allowed_enabled (some eac1) (some terminal) =
    build_manager can_allowed_enabled terminal eac1

unfoldable pub fire_changed : AccessRightManager → AccessRightManager
fire_changed manager =
    if manager.blocked then manager else record manager { changes = manager.changes + 1 }

-- `operator+=`
unfoldable pub add : AccessRight → AccessRightManager → AccessRightManager
unfolding fire_changed
add right manager =
    if not (manager.optional_rights right) && not (manager.required_rights right)
    then manager
    else if not (manager.effective_rights right)
    then fire_changed (record manager { effective_rights = insert right manager.effective_rights })
    else manager

-- `operator-=`
unfoldable pub take_away : AccessRight → AccessRightManager → AccessRightManager
unfolding fire_changed
take_away right manager =
    if manager.required_rights right
    then manager
    else if manager.effective_rights right
    then fire_changed (record manager { effective_rights = remove right manager.effective_rights })
    else manager

-- The loop of `operator=`, each turn under a `QSignalBlocker`.
unfoldable pub add_all : List AccessRight → AccessRightManager → AccessRightManager
unfolding add
add_all [] manager = manager
add_all (right ∷ rights) manager =
    let added = add right (record manager { blocked = true }) in
    add_all rights (record added { blocked = manager.blocked })

-- `operator=`, with the rights in the order in which the loop meets them.
unfoldable pub assign : List AccessRight → AccessRightManager → AccessRightManager
unfolding add_all fire_changed
assign rights manager =
    fire_changed (add_all rights (record manager { effective_rights = manager.required_rights }))

-- `operator QByteArray`, by the template of the CHAT that is encoded; it asserts a certificate.
unfoldable pub effective_chat : Bytes → Rights → Bytes
unfolding remove_all_access_rights set_access_rights
effective_chat template rights = set_access_rights rights (remove_all_access_rights template)

-- `AuthContext::encodeEffectiveChat` and `isCanAllowedMode`
unfoldable pub encode_effective_chat : Option AccessRightManager → Option Bytes
unfolding effective_chat
encode_effective_chat none = some []
encode_effective_chat (some manager) = elim manager.terminal_cvc [
  | none ↦ none
  | some template ↦ some (effective_chat template manager.effective_rights)
]

abbrev pub can_allowed_mode : Option AccessRightManager → Bool
can_allowed_mode none = false
can_allowed_mode (some manager) = manager.effective_rights can_allowed
