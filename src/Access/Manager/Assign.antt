-- ===== src/Access/Manager/Assign.antt =====
-- `operator=` of a manager: what is granted afterwards, and how often listeners are told.
use ausweis_app.Prelude.{
  ◌+◌, ◌≡◌, refl, ap, ◌∙◌, subst, Bool, true, ◌&&◌, ◌||◌, List, [], ◌∷◌, if◌then◌else◌, ◌==◌,
  ==_iff, arith, Bool-cases, inl, inr,
}
use ausweis_app.Access.Rights.{AccessRight, list_contains}
use ausweis_app.Access.Manager.{AccessRightManager, add, add_all, assign, fire_changed}

-- What one turn of the loop of `operator=` leaves.
turn : AccessRight → AccessRightManager → AccessRightManager
turn added manager = record (add added (record manager { blocked = true })) {
  blocked = manager.blocked;
}

turn-effective :
    (added right : AccessRight) (manager : AccessRightManager)
    → (turn added manager).effective_rights right ≡ (
        manager.effective_rights right
        || (right == added && (manager.required_rights right || manager.optional_rights right)))
unfolding turn add fire_changed
turn-effective added right manager = elim (Bool-cases (right == added)) [
  | inl same ↦
      subst
        (λ other. (turn other manager).effective_rights right ≡ (
          manager.effective_rights right
          || (right == other && (manager.required_rights right || manager.optional_rights right))))
        ((==_iff right added).0 same) (ground arith)
  | inr other ↦ ground (arith, other)
]

turn-rest :
    (added : AccessRight) (manager : AccessRightManager)
    → ((turn added manager).required_rights ≡ manager.required_rights)
      × ((turn added manager).optional_rights ≡ manager.optional_rights)
      × ((turn added manager).blocked ≡ manager.blocked)
      × ((turn added manager).changes ≡ manager.changes)
unfolding turn add fire_changed
turn-rest added manager = (ground arith, ground arith, refl, ground arith)

add_all-effective :
    (rights : List AccessRight) (right : AccessRight) (manager : AccessRightManager)
    → (add_all rights manager).effective_rights right ≡ (
        manager.effective_rights right
        || (list_contains rights right
            && (manager.required_rights right || manager.optional_rights right)))
unfolding add_all turn list_contains
add_all-effective [] right manager = ground arith
add_all-effective (added ∷ rights) right manager =
    let first = turn-effective added right manager in
    let rest = add_all-effective rights right (turn added manager) in
    let same = ap (λ f. f right) (turn-rest added manager).0 in
    let same_optional = ap (λ f. f right) (turn-rest added manager).1 in
    rest
    ∙ joined (list_contains rights right) (right == added) (manager.effective_rights right) first
        same same_optional
  where
    joined :
        (listed found was : Bool) {now required later_required optional later_optional : Bool}
        → now ≡ (was || (found && (required || optional)))
        → later_required ≡ required
        → later_optional ≡ optional
        → (now || (listed && (later_required || later_optional)))
          ≡ (was || ((found || listed) && (required || optional)))
    joined listed found was now_is required_is optional_is = ground arith

-- What does not change in the loop.
add_all-rest :
    (rights : List AccessRight) (manager : AccessRightManager)
    → ((add_all rights manager).required_rights ≡ manager.required_rights)
      × ((add_all rights manager).optional_rights ≡ manager.optional_rights)
      × ((add_all rights manager).blocked ≡ manager.blocked)
      × ((add_all rights manager).changes ≡ manager.changes)
unfolding add_all turn
add_all-rest [] manager = (refl, refl, refl, refl)
add_all-rest (added ∷ rights) manager =
    let first = turn-rest added manager in
    let rest = add_all-rest rights (turn added manager) in
    (rest.0 ∙ first.0, rest.1 ∙ first.1, rest.2 ∙ first.2, rest.3 ∙ first.3)

fire_changed-fields :
    (manager : AccessRightManager)
    → ((right : AccessRight)
        → (fire_changed manager).effective_rights right ≡ manager.effective_rights right)
      × ((fire_changed manager).changes
          ≡ (if manager.blocked then manager.changes else manager.changes + 1))
unfolding fire_changed
fire_changed-fields manager = ((λ right. ground arith), ground arith)

-- The operator = grants exactly the required rights and those of the given ones that are
-- optional, and tells of one change, unless the signals of the manager are blocked.
pub assign-effective :
    (rights : List AccessRight) (manager : AccessRightManager)
    → ((right : AccessRight)
        → (assign rights manager).effective_rights right ≡ (
            manager.required_rights right
            || (list_contains rights right && manager.optional_rights right)))
      × ((assign rights manager).changes
          ≡ (if manager.blocked then manager.changes else manager.changes + 1))
unfolding assign
assign-effective rights manager =
    let restarted : AccessRightManager = record manager {
      effective_rights = manager.required_rights;
    } in
    let fields = fire_changed-fields (add_all rights restarted) in
    let rest = add_all-rest rights restarted in
    (
      (λ right.
          fields.0 right
          ∙ add_all-effective rights right restarted
          ∙ absorbed (manager.required_rights right) (list_contains rights right)
              (manager.optional_rights right)),
      fields.1 ∙ rw rest.2 (ap (λ n. if manager.blocked then n else n + 1) rest.3),
    )
  where
    absorbed : (a b c : Bool) → (a || (b && (a || c))) ≡ (a || (b && c))
    absorbed a b c = ground arith
