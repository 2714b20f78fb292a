-- ===== src/Workflow/Pace/Cleared.antt =====
-- The passwords in the machine of the PACE channel: what a signal and an answer leave of them.
use ausweis_app.Prelude.{
  Bool, true, false, ◌&&◌, ◌||◌, ◌≡◌, refl, sym, ◌∙◌, subst, is_empty, arith, Bool-cases, inl, inr,
}
use ausweis_app.Workflow.Context.{
  Context, reset_pace_passwords, update_status, set_status, set_last_pace_result,
}
use ausweis_app.Workflow.States.{Signal, Answer, fire, call, wait, unreachable}
use ausweis_app.Workflow.Pace.{
  State, at, established, aborted, Config, transition, on_user_cancelled, move, deliver, enter,
  react, destroy_pace, clear_pace_passwords_on_error, clear_pace_passwords_before_destroy,
}

-- No password of the card is stored.
unfoldable pub passwords_empty : Context → Bool
passwords_empty context = is_empty context.can && is_empty context.pin && is_empty context.puk

-- At the end by an abort, and where the channel is destroyed, no password is stored, unless the
-- user has cancelled.
unfoldable pub is_cleared : Config → Bool
unfolding passwords_empty
is_cleared config = config.context.workflow_cancelled || elim config.position [
  | established ↦ true
  | aborted ↦ passwords_empty config.context
  | at state ↦ elim state [ destroy_pace ↦ passwords_empty config.context | _ ↦ true ]
]

-- The states whose signals lead there.
abbrev pub is_clearing : State → Bool
is_clearing state = elim state [
  | clear_pace_passwords_on_error ↦ true
  | clear_pace_passwords_before_destroy ↦ true
  | destroy_pace ↦ true
  | _ ↦ false
]

deliver-is_cleared :
    (state : State) (signal : Signal) (config : Config)
    → is_clearing state ≡ false
    → config.position ≡ at state
    → is_cleared (deliver state signal config) ≡ true
unfolding deliver move transition is_cleared
deliver-is_cleared state signal config h e = ground arith

pub reset_pace_passwords-passwords_empty :
    (context : Context) → passwords_empty (reset_pace_passwords context) ≡ true
unfolding passwords_empty reset_pace_passwords
reset_pace_passwords-passwords_empty context = ground arith

cancelled-is_cleared :
    (config : Config) → config.context.workflow_cancelled ≡ true → is_cleared config ≡ true
unfolding is_cleared
cancelled-is_cleared config h = ground arith

pub on_user_cancelled-cancelled :
    (state : State) (context : Context)
    → (on_user_cancelled state context).1.workflow_cancelled ≡ context.workflow_cancelled
unfolding on_user_cancelled set_last_pace_result update_status set_status
on_user_cancelled-cancelled state context = ground arith

deliver-cancelled :
    (state : State) (signal : Signal) (config : Config)
    → (deliver state signal config).context.workflow_cancelled ≡ config.context.workflow_cancelled
unfolding deliver move
deliver-cancelled state signal config = ground arith

enter-cancelled :
    (config : Config)
    → (enter config).context.workflow_cancelled ≡ config.context.workflow_cancelled
unfolding enter deliver move on_user_cancelled set_last_pace_result update_status set_status
enter-cancelled config = ground arith

enter_uncancelled :
    (config : Config) → config.context.workflow_cancelled ≡ false → enter config ≡ config
unfolding enter
enter_uncancelled config h = ground arith

-- On entry the configuration changes only if the user has cancelled.
enter-is_cleared : (config : Config) → is_cleared config ≡ true → is_cleared (enter config) ≡ true
unfolding enter
enter-is_cleared config h = elim (Bool-cases config.context.workflow_cancelled) [
  | inl cancelled ↦ cancelled-is_cleared (enter config) (enter-cancelled config ∙ cancelled)
  | inr e ↦ subst (λ c. is_cleared c ≡ true) (sym (enter_uncancelled config e)) h
]

react-cancelled :
    (state : State) (answer : Answer) (config : Config)
    → (react state answer config).context.workflow_cancelled ≡ answer.1.workflow_cancelled
unfolding react
react-cancelled state (fire signal, context) config =
    enter-cancelled (deliver state signal (record config { context = context }))
    ∙ deliver-cancelled state signal (record config { context = context })
react-cancelled state (call command, context) config = refl
react-cancelled state (wait, context) config = refl
react-cancelled state (unreachable, context) config = refl

pub elsewhere-is_cleared :
    (state : State) (config : Config)
    → is_clearing state ≡ false
    → config.position ≡ at state
    → is_cleared config ≡ true
unfolding is_cleared
elsewhere-is_cleared state config h e = ground arith

pub react-is_cleared :
    (state : State) (answer : Answer) (config : Config)
    → is_clearing state ≡ false
    → config.position ≡ at state
    → is_cleared (react state answer config) ≡ true
unfolding react
react-is_cleared state (fire signal, context) config h e =
    enter-is_cleared (deliver state signal (record config { context = context }))
      (deliver-is_cleared state signal (record config { context = context }) h e)
react-is_cleared state (call command, context) config h e =
    elsewhere-is_cleared state (record config { context = context }) h e
react-is_cleared state (wait, context) config h e =
    elsewhere-is_cleared state (record config { context = context }) h e
react-is_cleared state (unreachable, context) config h e =
    elsewhere-is_cleared state (record config { context = context }) h e

-- The user has cancelled, or no password is stored.
abbrev pub is_done_with : Context → Bool
is_done_with context = context.workflow_cancelled || passwords_empty context

done_with-is_cleared :
    (config : Config) → is_done_with config.context ≡ true → is_cleared config ≡ true
unfolding is_cleared
done_with-is_cleared config h = ground arith

deliver-done_with :
    (state : State) (signal : Signal) (config : Config)
    → is_done_with config.context ≡ true
    → is_done_with (deliver state signal config).context ≡ true
unfolding deliver move passwords_empty
deliver-done_with state signal config h = ground arith

-- An answer that leaves no password is enough in every state.
pub react-is_cleared_done :
    (state : State) (answer : Answer) (config : Config)
    → is_done_with answer.1 ≡ true
    → is_cleared (react state answer config) ≡ true
unfolding react
react-is_cleared_done state (fire signal, context) config h =
    let answered = record config { context = context } in
    enter-is_cleared (deliver state signal answered) (
      done_with-is_cleared (deliver state signal answered)
        (deliver-done_with state signal answered h))
react-is_cleared_done state (call command, context) config h =
    done_with-is_cleared (record config { context = context }) h
react-is_cleared_done state (wait, context) config h =
    done_with-is_cleared (record config { context = context }) h
react-is_cleared_done state (unreachable, context) config h =
    done_with-is_cleared (record config { context = context }) h
