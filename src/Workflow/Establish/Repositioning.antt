-- ===== src/Workflow/Establish/Repositioning.antt =====
-- WorkflowContext and StateEstablishPaceChannel: a card that vanishes during PACE.
use ausweis_app.Prelude.{ℕ, ◌+◌, ◌≤◌, ◌≡◌, true, false, List, [], ◌∷◌, refl, arith, length}
use ausweis_app.Workflow.Context.{
  Context, is_npa_repositioning_required, handle_wrong_npa_position, set_npa_position_verified,
  reset_card_connection,
}
use ausweis_app.Workflow.States.{run_unfortunate_card_position}

-- The card vanishes at each of the times, the first one first.
pub vanish : List ℕ → Context → Context
vanish [] context = context
vanish (now ∷ later) context = vanish later (handle_wrong_npa_position now context)

vanish-count :
    (times : List ℕ) (context : Context)
    → (vanish times context).card_vanished_count ≡ context.card_vanished_count + length times
unfolding vanish handle_wrong_npa_position reset_card_connection
vanish-count [] context = omega arith
vanish-count (now ∷ later) context =
    let rest = vanish-count later (handle_wrong_npa_position now context) in omega (arith, rest)

repositioning_required_lem :
    (now : ℕ) (context : Context)
    → 10 ≤ context.card_vanished_count
    → is_npa_repositioning_required now context ≡ true
unfolding is_npa_repositioning_required
repositioning_required_lem now context h = ground arith

-- Once the card has vanished ten times, at whatever times, the user has to move the card, and
-- StateUnfortunateCardPosition ends this.
pub is_npa_repositioning_required-vanish :
    (times : List ℕ) (now : ℕ) (context : Context)
    → 10 ≤ length times
    → (is_npa_repositioning_required now (vanish times context) ≡ true)
      × (is_npa_repositioning_required now (run_unfortunate_card_position (vanish times context)).1
          ≡ false)
unfolding is_npa_repositioning_required run_unfortunate_card_position set_npa_position_verified
is_npa_repositioning_required-vanish times now context h = (
  repositioning_required_lem now (vanish times context) (omega (arith, vanish-count times context)),
  refl,
)
