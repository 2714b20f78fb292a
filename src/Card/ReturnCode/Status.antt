-- ===== src/Card/ReturnCode/Status.antt =====
-- global/GlobalStatus.h: the status codes, and the tests on them of global/GlobalStatus.cpp.
use ausweis_app.Prelude.{Bool, true, false, not}

pub data GlobalStatus : Type 0 where
  unknown_error no_error network_service_unavailable network_ssl_establishment_error
        network_time_out network_proxy_error network_other_error downloader_file_not_found
        downloader_cannot_save_file downloader_data_corrupted downloader_missing_platform
        downloader_aborted update_execution_failed workflow_already_in_progress_error
        workflow_communication_missing_redirect_url workflow_cancellation_by_user
        workflow_card_removed workflow_cannot_confirm_id_card_authenticity
        workflow_unknown_paos_from_eid_server workflow_unexpected_message_from_eid_server
        workflow_preverification_developermode_error workflow_preverification_error
        workflow_no_unique_at_cvc workflow_no_unique_dv_cvc workflow_no_permission_error
        workflow_certificate_no_description workflow_certificate_no_url_in_description
        workflow_certificate_hash_error workflow_certificate_sop_error
        workflow_error_page_transmission_error workflow_redirect_transmission_error
        workflow_processing_error workflow_trusted_channel_establishment_error
        workflow_trusted_channel_error_from_server workflow_trusted_channel_hash_not_in_description
        workflow_trusted_channel_no_data_received
        workflow_trusted_channel_ssl_certificate_unsupported_algorithm_or_length
        workflow_trusted_channel_service_unavailable workflow_trusted_channel_time_out
        workflow_trusted_channel_proxy_error workflow_trusted_channel_server_format_error
        workflow_trusted_channel_other_network_error workflow_reader_became_inaccessible
        workflow_server_incomplete_information_provided
        workflow_network_ssl_connection_unsupported_algorithm_or_length
        workflow_network_ssl_certificate_unsupported_algorithm_or_length
        workflow_network_ssl_hash_not_in_certificate_description workflow_network_empty_redirect_url
        workflow_network_expected_redirect workflow_network_invalid_scheme
        workflow_network_malformed_redirect_url workflow_wrong_parameter_invocation
        paos_unexpected_warning paos_generic_server_error paos_error_al_unknown_error
        paos_error_al_internal_error paos_error_al_communication_error
        paos_error_dp_trusted_channel_establishment_failed paos_error_sal_cancellation_by_user
        paos_error_sal_invalid_key card_not_found card_communication_error card_protocol_error
        card_unexpected_transmit_status card_cancellation_by_user card_input_time_out
        card_pin_deactivated card_invalid_pin card_invalid_can card_invalid_puk card_pin_blocked
        card_pin_not_blocked card_puk_blocked card_new_pin_mismatch card_new_pin_invalid_length
        card_validity_verification_failed remote_reader_close_code_abnormal_close
        remote_connector_invalid_request remote_connector_no_supported_api_level
        remote_connector_connection_timeout remote_connector_connection_error
        remote_connector_remote_host_refused_connection :
      GlobalStatus

unfoldable pub is_no_error : GlobalStatus → Bool
is_no_error GlobalStatus.no_error = true
is_no_error _ = false

unfoldable pub is_error : GlobalStatus → Bool
unfolding is_no_error
is_error status = not (is_no_error status)

unfoldable pub is_cancellation_by_user : GlobalStatus → Bool
is_cancellation_by_user GlobalStatus.workflow_cancellation_by_user = true
is_cancellation_by_user GlobalStatus.card_cancellation_by_user = true
is_cancellation_by_user GlobalStatus.paos_error_sal_cancellation_by_user = true
is_cancellation_by_user _ = false
