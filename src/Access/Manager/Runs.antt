-- ===== src/Access/Manager/Runs.antt =====
-- The rights of a manager over any calls of its operators.
use ausweis_app.Prelude.{
  ◌≡◌, sym, ◌∙◌, subst, Bool, true, not, ◌&&◌, ◌||◌, Option, none, some, List, [], ◌∷◌,
  if◌then◌else◌, ◌==◌, ==_iff, arith, &&-split, Bool-cases, inl, inr,
}
use ausweis_app.Bytes.{Bytes}
use ausweis_app.Access.Rights.{
  AccessRight, Rights, intersect, age_verification, community_id_verification, list_contains,
  can_allowed, pin_management, all_displayed_ordered_rights,
}
use ausweis_app.Access.Chat.{get_access_rights}
use ausweis_app.Access.Manager.{
  AccessRightManager, Eac1, build_manager, add, take_away, add_all, assign, fire_changed,
  remove_forbidden_access_rights, requested, has_age, has_community, drop_unless, allowed_rights,
  offered_rights, decide_can_allowed,
}

-- What the operators are given.
pub data Operation : Type 0 where
  plus minus : AccessRight → Operation
  equals : List AccessRight → Operation

unfoldable pub apply : Operation → AccessRightManager → AccessRightManager
apply (Operation.plus right) manager = add right manager
apply (Operation.minus right) manager = take_away right manager
apply (Operation.equals rights) manager = assign rights manager

unfoldable pub run : List Operation → AccessRightManager → AccessRightManager
unfolding apply
run [] manager = manager
run (operation ∷ operations) manager = run operations (apply operation manager)

-- Of one right: what is required stays granted, what is granted was asked for, and the certificate
-- and, for CAN_ALLOWED, the configuration allow it.
unfoldable pub is_sound : Bool → Bytes → AccessRight → AccessRightManager → Bool
is_sound enabled terminal right manager =
    let pin = enabled || get_access_rights terminal pin_management in
    let asked = manager.required_rights right || manager.optional_rights right in
    (if manager.effective_rights right then asked else not (manager.required_rights right))
    && (if asked then get_access_rights terminal right else true)
    && (if asked && right == can_allowed then pin && not (manager.required_rights right) else true)

module _ (enabled : Bool) (terminal : Bytes) (right : AccessRight) where
  add-is_sound :
      (added : AccessRight) (manager : AccessRightManager)
      → is_sound enabled terminal right manager ≡ true
      → is_sound enabled terminal right (add added manager) ≡ true
  unfolding is_sound add fire_changed
  add-is_sound added manager h = elim (Bool-cases (right == added)) [
    | inl same ↦
        subst (λ other. is_sound enabled terminal right (add other manager) ≡ true)
          ((==_iff right added).0 same) (ground (arith, h))
    | inr other ↦ ground (arith, h)
  ]

  take_away-is_sound :
      (taken : AccessRight) (manager : AccessRightManager)
      → is_sound enabled terminal right manager ≡ true
      → is_sound enabled terminal right (take_away taken manager) ≡ true
  unfolding is_sound take_away fire_changed
  take_away-is_sound taken manager h = elim (Bool-cases (right == taken)) [
    | inl same ↦
        subst (λ other. is_sound enabled terminal right (take_away other manager) ≡ true)
          ((==_iff right taken).0 same) (ground (arith, h))
    | inr other ↦ ground (arith, h)
  ]

  add_all-is_sound :
      (rights : List AccessRight) (manager : AccessRightManager)
      → is_sound enabled terminal right manager ≡ true
      → is_sound enabled terminal right (add_all rights manager) ≡ true
  unfolding add_all is_sound
  add_all-is_sound [] manager h = h
  add_all-is_sound (added ∷ rights) manager h =
      add_all-is_sound rights
        (record (add added (record manager { blocked = true })) { blocked = manager.blocked })
        (add-is_sound added (record manager { blocked = true }) h)

  fire_changed-is_sound :
      (manager : AccessRightManager)
      → is_sound enabled terminal right (fire_changed manager)
        ≡ is_sound enabled terminal right manager
  unfolding fire_changed is_sound
  fire_changed-is_sound manager = ground arith

  restart-is_sound :
      (manager : AccessRightManager)
      → is_sound enabled terminal right manager ≡ true
      → is_sound enabled terminal right
          (record manager { effective_rights = manager.required_rights })
        ≡ true
  unfolding is_sound
  restart-is_sound manager h = ground (arith, h)

  apply-is_sound :
      (operation : Operation) (manager : AccessRightManager)
      → is_sound enabled terminal right manager ≡ true
      → is_sound enabled terminal right (apply operation manager) ≡ true
  unfolding apply assign
  apply-is_sound (Operation.plus added) manager h = add-is_sound added manager h
  apply-is_sound (Operation.minus taken) manager h = take_away-is_sound taken manager h
  apply-is_sound (Operation.equals rights) manager h =
      fire_changed-is_sound
        (add_all rights (record manager { effective_rights = manager.required_rights }))
      ∙ add_all-is_sound rights (record manager { effective_rights = manager.required_rights })
          (restart-is_sound manager h)

  run-is_sound :
      (operations : List Operation) (manager : AccessRightManager)
      → is_sound enabled terminal right manager ≡ true
      → is_sound enabled terminal right (run operations manager) ≡ true
  unfolding run
  run-is_sound [] manager h = h
  run-is_sound (operation ∷ operations) manager h =
      run-is_sound operations (apply operation manager) (apply-is_sound operation manager h)

  drop_unless-kept :
      (specified : Bool) (dropped : AccessRight) (rights : Rights)
      → drop_unless specified dropped rights right ≡ true
      → rights right ≡ true
  drop_unless-kept specified dropped rights h = ground arith

  -- What stays of the rights of a CHAT is allowed by the certificate.
  forbidden-allowed :
      (eac1 : Eac1) (rights : Rights)
      → remove_forbidden_access_rights terminal eac1 rights right ≡ true
      → get_access_rights terminal right ≡ true
  unfolding remove_forbidden_access_rights
  forbidden-allowed eac1 rights h =
      let kept = intersect rights (allowed_rights terminal) in
      let aged = drop_unless (has_age eac1.auxiliary_data) age_verification kept in
      let here =
        drop_unless-kept (has_age eac1.auxiliary_data) age_verification kept
          (drop_unless-kept (has_community eac1.auxiliary_data) community_id_verification aged h) in
      (&&-split (get_access_rights terminal right)
        (list_contains all_displayed_ordered_rights right)
        (&&-split (rights right) (allowed_rights terminal right) here).1).0

  requested-allowed :
      (eac1 : Eac1) (chat : Option Bytes)
      → requested terminal eac1 chat right ≡ true
      → get_access_rights terminal right ≡ true
  requested-allowed eac1 none h = ground arith
  requested-allowed eac1 (some chat) h = forbidden-allowed eac1 (get_access_rights chat) h

  offered_rights-allowed :
      (required asked of_certificate : Rights)
      → (asked right ≡ true → get_access_rights terminal right ≡ true)
      → (of_certificate right ≡ true → get_access_rights terminal right ≡ true)
      → offered_rights required asked of_certificate right ≡ true
      → get_access_rights terminal right ≡ true
  unfolding offered_rights
  offered_rights-allowed required asked of_certificate first second h = ground arith

  decide_can_allowed-is_sound :
      (required offered : Rights)
      → (required right ≡ true → get_access_rights terminal right ≡ true)
      → (offered right ≡ true → get_access_rights terminal right ≡ true)
      → is_sound enabled terminal right (decide_can_allowed enabled terminal required offered)
        ≡ true
  unfolding decide_can_allowed is_sound
  decide_can_allowed-is_sound required offered first second =
      elim (Bool-cases (right == can_allowed)) [
        | inl same ↦
            subst
              (λ other.
                is_sound enabled terminal other
                  (decide_can_allowed enabled terminal required offered)
                ≡ true)
              (sym ((==_iff right can_allowed).0 same)) (ground arith)
        | inr other ↦ ground (arith, other)
      ]

  build_manager-is_sound :
      (eac1 : Eac1) → is_sound enabled terminal right (build_manager enabled terminal eac1) ≡ true
  unfolding build_manager
  build_manager-is_sound eac1 =
      let required = requested terminal eac1 eac1.required_chat in
      let asked = requested terminal eac1 eac1.optional_chat in
      let all = remove_forbidden_access_rights terminal eac1 (get_access_rights terminal) in
      decide_can_allowed-is_sound required (offered_rights required asked all)
        (requested-allowed eac1 eac1.required_chat)
        (offered_rights-allowed required asked all (requested-allowed eac1 eac1.optional_chat)
          (forbidden-allowed eac1 (get_access_rights terminal)))

sound_parts :
    (enabled : Bool) (terminal : Bytes) (right : AccessRight) (manager : AccessRightManager)
    → is_sound enabled terminal right manager ≡ true
    → (manager.required_rights right ≡ true → manager.effective_rights right ≡ true)
      × (manager.effective_rights right ≡ true
          → ((manager.required_rights right || manager.optional_rights right) ≡ true)
            × (get_access_rights terminal right ≡ true))
unfolding is_sound
sound_parts enabled terminal right manager h =
    ((λ required. ground (arith, h, required)), (λ granted. ground (arith, h, granted)))

sound_can_allowed :
    (enabled : Bool) (terminal : Bytes) (manager : AccessRightManager)
    → is_sound enabled terminal can_allowed manager ≡ true
    → manager.effective_rights can_allowed ≡ true
    → (enabled || get_access_rights terminal pin_management) ≡ true
unfolding is_sound
sound_can_allowed enabled terminal manager h granted = ground (arith, h, granted)

-- After any calls of the operators +=, -= and = of a manager that was constructed from a
-- request and a certificate, every required right is granted, every granted right is required
-- or optional and is one of the certificate, and CAN_ALLOWED is granted only if it is enabled
-- or the certificate has PIN_MANAGEMENT.
pub run-granted :
    (enabled : Bool) (terminal : Bytes) (eac1 : Eac1) (operations : List Operation)
    → let manager = run operations (build_manager enabled terminal eac1) in
      ((right : AccessRight)
        → (manager.required_rights right ≡ true → manager.effective_rights right ≡ true)
          × (manager.effective_rights right ≡ true
              → ((manager.required_rights right || manager.optional_rights right) ≡ true)
                × (get_access_rights terminal right ≡ true)))
      × (manager.effective_rights can_allowed ≡ true
          → (enabled || get_access_rights terminal pin_management) ≡ true)
run-granted enabled terminal eac1 operations =
    let sound : (right : AccessRight)
        → is_sound enabled terminal right (run operations (build_manager enabled terminal eac1))
          ≡ true =
      λ right.
        run-is_sound enabled terminal right operations (build_manager enabled terminal eac1)
          (build_manager-is_sound enabled terminal right eac1) in
    (
      (λ right.
          sound_parts enabled terminal right (run operations (build_manager enabled terminal eac1))
            (sound right)),
      sound_can_allowed enabled terminal (run operations (build_manager enabled terminal eac1))
          (sound can_allowed),
    )
