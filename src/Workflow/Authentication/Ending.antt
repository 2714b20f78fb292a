-- ===== src/Workflow/Authentication/Ending.antt =====
-- The end of an authentication whose states abort.
use ausweis_app.Prelude.{ℕ, zero, suc, ◌≡◌, ◌⊎◌, inl, inr, refl}
use ausweis_app.Workflow.Authentication.{
  abort, AuthState, AuthPlace, in_auth, auth_ended, ChannelState, RightsState, AuthPosition,
  fire_signal, auth_signal, channel_signal, rights_signal, auth_transition, channel_transition,
  rights_transition,
}

pub abort_times : ℕ → AuthPosition → AuthPosition
abort_times zero position = position
abort_times (suc n) position = abort_times n (fire_signal abort position)

abort_times_at :
    (place : AuthPlace) (channel : ChannelState) (rights : RightsState)
    → ((abort_times 7 (record { place = place; channel = channel; rights = rights })).place
        ≡ in_auth AuthState.final)
      ⊎ (place ≡ auth_ended)
unfolding abort_times fire_signal auth_signal channel_signal rights_signal auth_transition
    channel_transition rights_transition
abort_times_at auth_ended channel rights = inr refl
abort_times_at (in_auth AuthState.trusted_channel) ChannelState.process_cvcs_and_set_rights
      RightsState.pre_verification =
    inl refl
abort_times_at (in_auth AuthState.trusted_channel) ChannelState.process_cvcs_and_set_rights rights =
    inl refl
abort_times_at (in_auth AuthState.trusted_channel) channel rights = inl refl
abort_times_at (in_auth state) channel rights = inl refl

-- Wherever an authentication is, seven aborts in a row lead to its final state, or it has ended.
pub abort_times-final :
    (position : AuthPosition)
    → ((abort_times 7 position).place ≡ in_auth AuthState.final) ⊎ (position.place ≡ auth_ended)
abort_times-final position = abort_times_at position.place position.channel position.rights
