-- ===== src/Workflow/Authentication.antt =====
-- workflows/base/controller/AuthController.cpp, SelfAuthController.cpp, and in workflows/base/states
-- CompositeStateTrustedChannel.cpp and CompositeStateProcessCvcsAndSetRights.cpp: the transitions of an
-- authentication. What the states do is a parameter of a run: the signal that each of them fires. The
-- composite state of PACE is one state here, whose signals are `continue` for an established channel and
-- `abort`.
pub mod Ending
use ausweis_app.Prelude.{Option, none, some}

pub data WorkflowSignal : Type 0 where
  continue abort received_did_list received_extract_cvcs received_start_paos_response
        received_disconnect send_did_authenticate_response :
      WorkflowSignal

pub data RightsState : Type 0 where
  extract_cvcs_from_eac1_input_type pre_verification certificate_description_check
        check_certificates edit_access_rights :
      RightsState

pub data RightsPlace : Type 0 where
  in_rights : RightsState → RightsPlace
  rights_set rights_failed : RightsPlace

unfoldable pub rights_transition : RightsState → WorkflowSignal → Option RightsPlace
rights_transition RightsState.extract_cvcs_from_eac1_input_type continue =
    some (in_rights RightsState.pre_verification)
rights_transition RightsState.extract_cvcs_from_eac1_input_type abort = some rights_failed
rights_transition RightsState.pre_verification continue =
    some (in_rights RightsState.certificate_description_check)
rights_transition RightsState.pre_verification abort = some rights_failed
rights_transition RightsState.certificate_description_check continue =
    some (in_rights RightsState.check_certificates)
rights_transition RightsState.certificate_description_check abort = some rights_failed
rights_transition RightsState.check_certificates continue =
    some (in_rights RightsState.edit_access_rights)
rights_transition RightsState.check_certificates abort = some rights_failed
rights_transition RightsState.edit_access_rights continue = some rights_set
rights_transition RightsState.edit_access_rights abort = some rights_failed
rights_transition _ _ = none

pub data ChannelState : Type 0 where
  get_tc_token start_paos send_start_paos initialize_framework send_initialize_framework_response
        did_list send_did_list_response process_cvcs_and_set_rights pace clear_pace_passwords
        did_authenticate_eac1 send_did_authenticate_response_eac1 eac_additional_input_type
        send_did_authenticat_response_eac_additional_input process_certificates_from_eac2
        did_authenticate_eac2 send_did_authenticate_response_eac2 transmit send_transmit_response
        send_disconnect_response start_paos_response update_retry_counter_final
        clean_up_reader_manager :
      ChannelState

pub data ChannelPlace : Type 0 where
  in_channel : ChannelState → ChannelPlace
  channel_done channel_failed : ChannelPlace

unfoldable pub channel_transition : ChannelState → WorkflowSignal → Option ChannelPlace
channel_transition ChannelState.get_tc_token continue = some (in_channel ChannelState.start_paos)
channel_transition ChannelState.get_tc_token abort =
    some (in_channel ChannelState.clean_up_reader_manager)
channel_transition ChannelState.start_paos continue = some (in_channel ChannelState.send_start_paos)
channel_transition ChannelState.start_paos abort =
    some (in_channel ChannelState.clean_up_reader_manager)
channel_transition ChannelState.send_start_paos continue =
    some (in_channel ChannelState.initialize_framework)
channel_transition ChannelState.send_start_paos abort =
    some (in_channel ChannelState.clean_up_reader_manager)
channel_transition ChannelState.send_start_paos received_did_list =
    some (in_channel ChannelState.did_list)
channel_transition ChannelState.send_start_paos received_extract_cvcs =
    some (in_channel ChannelState.process_cvcs_and_set_rights)
channel_transition ChannelState.send_start_paos received_start_paos_response =
    some (in_channel ChannelState.start_paos_response)
channel_transition ChannelState.initialize_framework continue =
    some (in_channel ChannelState.send_initialize_framework_response)
channel_transition ChannelState.initialize_framework abort =
    some (in_channel ChannelState.send_initialize_framework_response)
channel_transition ChannelState.send_initialize_framework_response continue =
    some (in_channel ChannelState.did_list)
channel_transition ChannelState.send_initialize_framework_response abort =
    some (in_channel ChannelState.clean_up_reader_manager)
channel_transition ChannelState.send_initialize_framework_response received_extract_cvcs =
    some (in_channel ChannelState.process_cvcs_and_set_rights)
channel_transition ChannelState.send_initialize_framework_response received_start_paos_response =
    some (in_channel ChannelState.start_paos_response)
channel_transition ChannelState.did_list continue =
    some (in_channel ChannelState.send_did_list_response)
channel_transition ChannelState.did_list abort =
    some (in_channel ChannelState.send_did_list_response)
channel_transition ChannelState.send_did_list_response continue =
    some (in_channel ChannelState.process_cvcs_and_set_rights)
channel_transition ChannelState.send_did_list_response abort =
    some (in_channel ChannelState.clean_up_reader_manager)
channel_transition ChannelState.send_did_list_response received_disconnect =
    some (in_channel ChannelState.send_disconnect_response)
channel_transition ChannelState.send_did_list_response received_start_paos_response =
    some (in_channel ChannelState.start_paos_response)
channel_transition ChannelState.process_cvcs_and_set_rights continue =
    some (in_channel ChannelState.pace)
channel_transition ChannelState.process_cvcs_and_set_rights abort =
    some (in_channel ChannelState.send_did_authenticate_response_eac1)
channel_transition ChannelState.pace continue = some (in_channel ChannelState.clear_pace_passwords)
channel_transition ChannelState.pace abort =
    some (in_channel ChannelState.send_did_authenticate_response_eac1)
channel_transition ChannelState.clear_pace_passwords continue =
    some (in_channel ChannelState.did_authenticate_eac1)
channel_transition ChannelState.clear_pace_passwords abort =
    some (in_channel ChannelState.did_authenticate_eac1)
channel_transition ChannelState.did_authenticate_eac1 continue =
    some (in_channel ChannelState.send_did_authenticate_response_eac1)
channel_transition ChannelState.did_authenticate_eac1 abort =
    some (in_channel ChannelState.send_did_authenticate_response_eac1)
channel_transition ChannelState.send_did_authenticate_response_eac1 continue =
    some (in_channel ChannelState.eac_additional_input_type)
channel_transition ChannelState.send_did_authenticate_response_eac1 abort =
    some (in_channel ChannelState.update_retry_counter_final)
channel_transition ChannelState.send_did_authenticate_response_eac1 received_disconnect =
    some (in_channel ChannelState.send_disconnect_response)
channel_transition ChannelState.send_did_authenticate_response_eac1 received_start_paos_response =
    some (in_channel ChannelState.start_paos_response)
channel_transition ChannelState.eac_additional_input_type continue =
    some (in_channel ChannelState.process_certificates_from_eac2)
channel_transition ChannelState.eac_additional_input_type abort =
    some (in_channel ChannelState.send_did_authenticat_response_eac_additional_input)
channel_transition ChannelState.eac_additional_input_type send_did_authenticate_response =
    some (in_channel ChannelState.send_did_authenticat_response_eac_additional_input)
channel_transition ChannelState.send_did_authenticat_response_eac_additional_input continue =
    some (in_channel ChannelState.process_certificates_from_eac2)
channel_transition ChannelState.send_did_authenticat_response_eac_additional_input abort =
    some (in_channel ChannelState.update_retry_counter_final)
channel_transition ChannelState.send_did_authenticat_response_eac_additional_input
      received_start_paos_response =
    some (in_channel ChannelState.start_paos_response)
channel_transition ChannelState.process_certificates_from_eac2 continue =
    some (in_channel ChannelState.did_authenticate_eac2)
channel_transition ChannelState.process_certificates_from_eac2 abort =
    some (in_channel ChannelState.send_did_authenticate_response_eac2)
channel_transition ChannelState.did_authenticate_eac2 continue =
    some (in_channel ChannelState.send_did_authenticate_response_eac2)
channel_transition ChannelState.did_authenticate_eac2 abort =
    some (in_channel ChannelState.send_did_authenticate_response_eac2)
channel_transition ChannelState.send_did_authenticate_response_eac2 continue =
    some (in_channel ChannelState.transmit)
channel_transition ChannelState.send_did_authenticate_response_eac2 abort =
    some (in_channel ChannelState.update_retry_counter_final)
channel_transition ChannelState.send_did_authenticate_response_eac2 received_disconnect =
    some (in_channel ChannelState.send_disconnect_response)
channel_transition ChannelState.send_did_authenticate_response_eac2 received_start_paos_response =
    some (in_channel ChannelState.start_paos_response)
channel_transition ChannelState.transmit continue =
    some (in_channel ChannelState.send_transmit_response)
channel_transition ChannelState.transmit abort =
    some (in_channel ChannelState.send_transmit_response)
channel_transition ChannelState.send_transmit_response continue =
    some (in_channel ChannelState.transmit)
channel_transition ChannelState.send_transmit_response abort =
    some (in_channel ChannelState.update_retry_counter_final)
channel_transition ChannelState.send_transmit_response received_disconnect =
    some (in_channel ChannelState.send_disconnect_response)
channel_transition ChannelState.send_transmit_response received_start_paos_response =
    some (in_channel ChannelState.start_paos_response)
channel_transition ChannelState.send_disconnect_response continue =
    some (in_channel ChannelState.start_paos_response)
channel_transition ChannelState.send_disconnect_response abort =
    some (in_channel ChannelState.update_retry_counter_final)
channel_transition ChannelState.start_paos_response continue =
    some (in_channel ChannelState.update_retry_counter_final)
channel_transition ChannelState.start_paos_response abort =
    some (in_channel ChannelState.update_retry_counter_final)
channel_transition ChannelState.update_retry_counter_final continue =
    some (in_channel ChannelState.clean_up_reader_manager)
channel_transition ChannelState.update_retry_counter_final abort =
    some (in_channel ChannelState.clean_up_reader_manager)
channel_transition ChannelState.clean_up_reader_manager continue = some channel_done
channel_transition ChannelState.clean_up_reader_manager abort = some channel_failed
channel_transition _ _ = none

pub data AuthState : Type 0 where
  processing parse_tc_token_url trusted_channel check_refresh_address activate_store_feedback_dialog
        write_history send_whitelist_survey redirect_browser final :
      AuthState

pub data AuthPlace : Type 0 where
  in_auth : AuthState → AuthPlace
  auth_ended : AuthPlace

-- FinalState adds its own transitions in `run`.
unfoldable pub auth_transition : AuthState → WorkflowSignal → Option AuthPlace
auth_transition AuthState.processing continue = some (in_auth AuthState.parse_tc_token_url)
auth_transition AuthState.processing abort = some (in_auth AuthState.check_refresh_address)
auth_transition AuthState.parse_tc_token_url continue = some (in_auth AuthState.trusted_channel)
auth_transition AuthState.parse_tc_token_url abort = some (in_auth AuthState.check_refresh_address)
auth_transition AuthState.trusted_channel continue = some (in_auth AuthState.check_refresh_address)
auth_transition AuthState.trusted_channel abort = some (in_auth AuthState.check_refresh_address)
auth_transition AuthState.check_refresh_address continue =
    some (in_auth AuthState.activate_store_feedback_dialog)
auth_transition AuthState.check_refresh_address abort = some (in_auth AuthState.redirect_browser)
auth_transition AuthState.activate_store_feedback_dialog continue =
    some (in_auth AuthState.write_history)
auth_transition AuthState.activate_store_feedback_dialog abort =
    some (in_auth AuthState.write_history)
auth_transition AuthState.write_history continue = some (in_auth AuthState.send_whitelist_survey)
auth_transition AuthState.write_history abort = some (in_auth AuthState.redirect_browser)
auth_transition AuthState.send_whitelist_survey continue = some (in_auth AuthState.redirect_browser)
auth_transition AuthState.send_whitelist_survey abort = some (in_auth AuthState.redirect_browser)
auth_transition AuthState.redirect_browser continue = some (in_auth AuthState.final)
auth_transition AuthState.redirect_browser abort = some (in_auth AuthState.final)
auth_transition AuthState.final continue = some auth_ended
auth_transition _ _ = none

pub data SelfAuthState : Type 0 where
  load_tc_token_url trusted_channel check_error_epilogue check_refresh_address
        activate_store_feedback_dialog write_history get_self_authentication_data show_self_info
        send_whitelist_survey final :
      SelfAuthState

pub data SelfAuthPlace : Type 0 where
  in_self_auth : SelfAuthState → SelfAuthPlace
  self_auth_ended : SelfAuthPlace

unfoldable pub self_auth_transition : SelfAuthState → WorkflowSignal → Option SelfAuthPlace
self_auth_transition SelfAuthState.load_tc_token_url continue =
    some (in_self_auth SelfAuthState.trusted_channel)
self_auth_transition SelfAuthState.load_tc_token_url abort =
    some (in_self_auth SelfAuthState.check_refresh_address)
self_auth_transition SelfAuthState.trusted_channel continue =
    some (in_self_auth SelfAuthState.check_error_epilogue)
self_auth_transition SelfAuthState.trusted_channel abort =
    some (in_self_auth SelfAuthState.check_error_epilogue)
self_auth_transition SelfAuthState.check_error_epilogue continue =
    some (in_self_auth SelfAuthState.check_refresh_address)
self_auth_transition SelfAuthState.check_error_epilogue abort =
    some (in_self_auth SelfAuthState.final)
self_auth_transition SelfAuthState.check_refresh_address continue =
    some (in_self_auth SelfAuthState.activate_store_feedback_dialog)
self_auth_transition SelfAuthState.check_refresh_address abort =
    some (in_self_auth SelfAuthState.final)
self_auth_transition SelfAuthState.activate_store_feedback_dialog continue =
    some (in_self_auth SelfAuthState.write_history)
self_auth_transition SelfAuthState.activate_store_feedback_dialog abort =
    some (in_self_auth SelfAuthState.write_history)
self_auth_transition SelfAuthState.write_history continue =
    some (in_self_auth SelfAuthState.get_self_authentication_data)
self_auth_transition SelfAuthState.write_history abort =
    some (in_self_auth SelfAuthState.get_self_authentication_data)
self_auth_transition SelfAuthState.get_self_authentication_data continue =
    some (in_self_auth SelfAuthState.show_self_info)
self_auth_transition SelfAuthState.get_self_authentication_data abort =
    some (in_self_auth SelfAuthState.final)
self_auth_transition SelfAuthState.show_self_info continue =
    some (in_self_auth SelfAuthState.send_whitelist_survey)
self_auth_transition SelfAuthState.show_self_info abort = some (in_self_auth SelfAuthState.final)
self_auth_transition SelfAuthState.send_whitelist_survey continue =
    some (in_self_auth SelfAuthState.final)
self_auth_transition SelfAuthState.send_whitelist_survey abort =
    some (in_self_auth SelfAuthState.final)
self_auth_transition SelfAuthState.final continue = some self_auth_ended
self_auth_transition _ _ = none

-- The position in the nested machines: inside the trusted channel also its state, and inside the
-- check of the certificates also the one there.
pub record AuthPosition : Type 0 where
  pub place : AuthPlace
  pub channel : ChannelState
  pub rights : RightsState

-- Composite states are entered at their first state.
abbrev pub at_place : AuthPlace → AuthPosition
at_place place = record {
  place = place;
  channel = ChannelState.get_tc_token;
  rights = RightsState.extract_cvcs_from_eac1_input_type;
}

abbrev pub at_channel : ChannelState → AuthPosition
at_channel state = record {
  place = in_auth AuthState.trusted_channel;
  channel = state;
  rights = RightsState.extract_cvcs_from_eac1_input_type;
}

unfoldable pub auth_signal : AuthState → WorkflowSignal → AuthPosition → AuthPosition
unfolding auth_transition
auth_signal state signal position = elim (auth_transition state signal) [
  | none ↦ position
  | some place ↦ at_place place
]

unfoldable pub channel_signal : ChannelState → WorkflowSignal → AuthPosition → AuthPosition
unfolding channel_transition auth_signal
channel_signal state signal position = elim (channel_transition state signal) [
  | none ↦ position
  | some place ↦ elim place [
    | in_channel next ↦ at_channel next
    | channel_done ↦ auth_signal AuthState.trusted_channel continue position
    | channel_failed ↦ auth_signal AuthState.trusted_channel abort position
  ]
]

unfoldable pub rights_signal : RightsState → WorkflowSignal → AuthPosition → AuthPosition
unfolding rights_transition channel_signal
rights_signal state signal position = elim (rights_transition state signal) [
  | none ↦ position
  | some place ↦ elim place [
    | in_rights next ↦ record position { rights = next }
    | rights_set ↦ channel_signal ChannelState.process_cvcs_and_set_rights continue position
    | rights_failed ↦ channel_signal ChannelState.process_cvcs_and_set_rights abort position
  ]
]

-- The signal of the innermost state.
unfoldable pub fire_signal : WorkflowSignal → AuthPosition → AuthPosition
unfolding auth_signal channel_signal rights_signal
fire_signal signal position = elim position.place [
  | auth_ended ↦ position
  | in_auth state ↦ elim state [
    | AuthState.trusted_channel ↦ elim position.channel [
      | ChannelState.process_cvcs_and_set_rights ↦ rights_signal position.rights signal position
      | inner ↦ channel_signal inner signal position
    ]
    | outer ↦ auth_signal outer signal position
  ]
]

abbrev pub start_auth : AuthPosition
start_auth = at_place (in_auth AuthState.processing)
