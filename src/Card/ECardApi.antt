-- ===== src/Card/ECardApi.antt =====
-- global/ECardApiResult.cpp and ECardApiResult.h: the result codes of the eCard-API, and the tables that
-- convert the status codes to them and back. Texts are left out.
pub mod Converted
use ausweis_app.Prelude.{
  ℕ, Bool, true, false, not, ◌&&◌, ◌||◌, Option, none, some, List, [], ◌∷◌, ◌++◌, ◌==◌,
  if◌then◌else◌,
}
use ausweis_app.Card.ReturnCode.{GlobalStatus}

pub data Major : Type 0 where
  unknown_major ok_major warning_major error_major : Major

pub data Minor : Type 0 where
  null_minor al_unknown_error al_no_permission al_internal_error al_parameter_error
        al_unkown_api_function al_not_initialized al_warning_connection_disconnected
        al_session_terminated_warning al_communication_error dp_timeout_error
        dp_unknown_channel_handle dp_communication_error dp_trusted_channel_establishment_failed
        dp_unknown_protocol dp_unknown_cipher_suite dp_unknown_webservice_binding
        dp_node_not_reachable ifdl_timeout_error ifdl_unknown_slot ifdl_invalid_slot_handle
        ifdl_cancellation_by_user ifdl_ifd_sharing_violation ifdl_terminal_no_card
        ifdl_io_repeated_data_mismatch ifdl_io_unknown_pin_format
        il_signature_invalid_certificate_path key_key_generation_not_possible
        sal_cancellation_by_user sal_invalid_key sal_security_condition_not_satisfied
        sal_meac_age_verification_failed_warning sal_meac_community_verification_failed_warning
        sal_meac_document_validity_verification_failed :
      Minor

pub data Origin : Type 0 where
  server client : Origin

-- The places in the enumerations, by which the maps compare their keys.
unfoldable pub minor_number : Minor → ℕ
minor_number null_minor = 0
minor_number al_unknown_error = 1
minor_number al_no_permission = 2
minor_number al_internal_error = 3
minor_number al_parameter_error = 4
minor_number al_unkown_api_function = 5
minor_number al_not_initialized = 6
minor_number al_warning_connection_disconnected = 7
minor_number al_session_terminated_warning = 8
minor_number al_communication_error = 9
minor_number dp_timeout_error = 10
minor_number dp_unknown_channel_handle = 11
minor_number dp_communication_error = 12
minor_number dp_trusted_channel_establishment_failed = 13
minor_number dp_unknown_protocol = 14
minor_number dp_unknown_cipher_suite = 15
minor_number dp_unknown_webservice_binding = 16
minor_number dp_node_not_reachable = 17
minor_number ifdl_timeout_error = 18
minor_number ifdl_unknown_slot = 19
minor_number ifdl_invalid_slot_handle = 20
minor_number ifdl_cancellation_by_user = 21
minor_number ifdl_ifd_sharing_violation = 22
minor_number ifdl_terminal_no_card = 23
minor_number ifdl_io_repeated_data_mismatch = 24
minor_number ifdl_io_unknown_pin_format = 25
minor_number il_signature_invalid_certificate_path = 26
minor_number key_key_generation_not_possible = 27
minor_number sal_cancellation_by_user = 28
minor_number sal_invalid_key = 29
minor_number sal_security_condition_not_satisfied = 30
minor_number sal_meac_age_verification_failed_warning = 31
minor_number sal_meac_community_verification_failed_warning = 32
minor_number sal_meac_document_validity_verification_failed = 33

unfoldable pub code_number : GlobalStatus → ℕ
code_number GlobalStatus.unknown_error = 0
code_number GlobalStatus.no_error = 1
code_number GlobalStatus.network_service_unavailable = 2
code_number GlobalStatus.network_ssl_establishment_error = 3
code_number GlobalStatus.network_time_out = 4
code_number GlobalStatus.network_proxy_error = 5
code_number GlobalStatus.network_other_error = 6
code_number GlobalStatus.downloader_file_not_found = 7
code_number GlobalStatus.downloader_cannot_save_file = 8
code_number GlobalStatus.downloader_data_corrupted = 9
code_number GlobalStatus.downloader_missing_platform = 10
code_number GlobalStatus.downloader_aborted = 11
code_number GlobalStatus.update_execution_failed = 12
code_number GlobalStatus.workflow_already_in_progress_error = 13
code_number GlobalStatus.workflow_communication_missing_redirect_url = 14
code_number GlobalStatus.workflow_cancellation_by_user = 15
code_number GlobalStatus.workflow_card_removed = 16
code_number GlobalStatus.workflow_cannot_confirm_id_card_authenticity = 17
code_number GlobalStatus.workflow_unknown_paos_from_eid_server = 18
code_number GlobalStatus.workflow_unexpected_message_from_eid_server = 19
code_number GlobalStatus.workflow_preverification_developermode_error = 20
code_number GlobalStatus.workflow_preverification_error = 21
code_number GlobalStatus.workflow_no_unique_at_cvc = 22
code_number GlobalStatus.workflow_no_unique_dv_cvc = 23
code_number GlobalStatus.workflow_no_permission_error = 24
code_number GlobalStatus.workflow_certificate_no_description = 25
code_number GlobalStatus.workflow_certificate_no_url_in_description = 26
code_number GlobalStatus.workflow_certificate_hash_error = 27
code_number GlobalStatus.workflow_certificate_sop_error = 28
code_number GlobalStatus.workflow_error_page_transmission_error = 29
code_number GlobalStatus.workflow_redirect_transmission_error = 30
code_number GlobalStatus.workflow_processing_error = 31
code_number GlobalStatus.workflow_trusted_channel_establishment_error = 32
code_number GlobalStatus.workflow_trusted_channel_error_from_server = 33
code_number GlobalStatus.workflow_trusted_channel_hash_not_in_description = 34
code_number GlobalStatus.workflow_trusted_channel_no_data_received = 35
code_number GlobalStatus.workflow_trusted_channel_ssl_certificate_unsupported_algorithm_or_length =
    36
code_number GlobalStatus.workflow_trusted_channel_service_unavailable = 37
code_number GlobalStatus.workflow_trusted_channel_time_out = 38
code_number GlobalStatus.workflow_trusted_channel_proxy_error = 39
code_number GlobalStatus.workflow_trusted_channel_server_format_error = 40
code_number GlobalStatus.workflow_trusted_channel_other_network_error = 41
code_number GlobalStatus.workflow_reader_became_inaccessible = 42
code_number GlobalStatus.workflow_server_incomplete_information_provided = 43
code_number GlobalStatus.workflow_network_ssl_connection_unsupported_algorithm_or_length = 44
code_number GlobalStatus.workflow_network_ssl_certificate_unsupported_algorithm_or_length = 45
code_number GlobalStatus.workflow_network_ssl_hash_not_in_certificate_description = 46
code_number GlobalStatus.workflow_network_empty_redirect_url = 47
code_number GlobalStatus.workflow_network_expected_redirect = 48
code_number GlobalStatus.workflow_network_invalid_scheme = 49
code_number GlobalStatus.workflow_network_malformed_redirect_url = 50
code_number GlobalStatus.workflow_wrong_parameter_invocation = 51
code_number GlobalStatus.paos_unexpected_warning = 52
code_number GlobalStatus.paos_generic_server_error = 53
code_number GlobalStatus.paos_error_al_unknown_error = 54
code_number GlobalStatus.paos_error_al_internal_error = 55
code_number GlobalStatus.paos_error_al_communication_error = 56
code_number GlobalStatus.paos_error_dp_trusted_channel_establishment_failed = 57
code_number GlobalStatus.paos_error_sal_cancellation_by_user = 58
code_number GlobalStatus.paos_error_sal_invalid_key = 59
code_number GlobalStatus.card_not_found = 60
code_number GlobalStatus.card_communication_error = 61
code_number GlobalStatus.card_protocol_error = 62
code_number GlobalStatus.card_unexpected_transmit_status = 63
code_number GlobalStatus.card_cancellation_by_user = 64
code_number GlobalStatus.card_input_time_out = 65
code_number GlobalStatus.card_pin_deactivated = 66
code_number GlobalStatus.card_invalid_pin = 67
code_number GlobalStatus.card_invalid_can = 68
code_number GlobalStatus.card_invalid_puk = 69
code_number GlobalStatus.card_pin_blocked = 70
code_number GlobalStatus.card_pin_not_blocked = 71
code_number GlobalStatus.card_puk_blocked = 72
code_number GlobalStatus.card_new_pin_mismatch = 73
code_number GlobalStatus.card_new_pin_invalid_length = 74
code_number GlobalStatus.card_validity_verification_failed = 75
code_number GlobalStatus.remote_reader_close_code_abnormal_close = 76
code_number GlobalStatus.remote_connector_invalid_request = 77
code_number GlobalStatus.remote_connector_no_supported_api_level = 78
code_number GlobalStatus.remote_connector_connection_timeout = 79
code_number GlobalStatus.remote_connector_connection_error = 80
code_number GlobalStatus.remote_connector_remote_host_refused_connection = 81

-- The calls of `addConversionElement`, in their order.
unfoldable pub conversion_elements : List (GlobalStatus × Minor)
conversion_elements =
    (GlobalStatus.paos_error_al_unknown_error, al_unknown_error)
    ∷ (GlobalStatus.paos_unexpected_warning, al_unknown_error)
    ∷ (GlobalStatus.unknown_error, al_unknown_error)
    ∷ (GlobalStatus.card_unexpected_transmit_status, al_unknown_error)
    ∷ (GlobalStatus.no_error, null_minor)
    ∷ (GlobalStatus.workflow_card_removed, ifdl_cancellation_by_user)
    ∷ (GlobalStatus.workflow_no_unique_dv_cvc, il_signature_invalid_certificate_path)
    ∷ (GlobalStatus.workflow_no_unique_at_cvc, il_signature_invalid_certificate_path)
    ∷ (GlobalStatus.workflow_preverification_error, il_signature_invalid_certificate_path)
    ∷ (
      GlobalStatus.workflow_preverification_developermode_error,
      il_signature_invalid_certificate_path,
    )
    ∷ (GlobalStatus.workflow_certificate_no_description, al_parameter_error)
    ∷ (GlobalStatus.workflow_certificate_no_url_in_description, al_parameter_error)
    ∷ (GlobalStatus.workflow_certificate_hash_error, al_parameter_error)
    ∷ (GlobalStatus.workflow_certificate_sop_error, al_parameter_error)
    ∷ (
      GlobalStatus.paos_error_dp_trusted_channel_establishment_failed,
      dp_trusted_channel_establishment_failed,
    )
    ∷ (
      GlobalStatus.workflow_trusted_channel_establishment_error,
      dp_trusted_channel_establishment_failed,
    )
    ∷ (
      GlobalStatus.workflow_trusted_channel_error_from_server,
      dp_trusted_channel_establishment_failed,
    )
    ∷ (
      GlobalStatus.workflow_trusted_channel_hash_not_in_description,
      dp_trusted_channel_establishment_failed,
    )
    ∷ (
      GlobalStatus.workflow_trusted_channel_no_data_received,
      dp_trusted_channel_establishment_failed,
    )
    ∷ (
      GlobalStatus.workflow_trusted_channel_ssl_certificate_unsupported_algorithm_or_length,
      dp_trusted_channel_establishment_failed,
    )
    ∷ (
      GlobalStatus.workflow_trusted_channel_service_unavailable,
      dp_trusted_channel_establishment_failed,
    )
    ∷ (GlobalStatus.workflow_trusted_channel_time_out, dp_trusted_channel_establishment_failed)
    ∷ (GlobalStatus.workflow_trusted_channel_proxy_error, dp_trusted_channel_establishment_failed)
    ∷ (
      GlobalStatus.workflow_trusted_channel_establishment_error,
      dp_trusted_channel_establishment_failed,
    )
    ∷ (
      GlobalStatus.workflow_trusted_channel_server_format_error,
      dp_trusted_channel_establishment_failed,
    )
    ∷ (
      GlobalStatus.workflow_trusted_channel_other_network_error,
      dp_trusted_channel_establishment_failed,
    )
    ∷ (GlobalStatus.paos_error_sal_cancellation_by_user, sal_cancellation_by_user)
    ∷ (GlobalStatus.workflow_cancellation_by_user, sal_cancellation_by_user)
    ∷ (GlobalStatus.card_cancellation_by_user, sal_cancellation_by_user)
    ∷ (GlobalStatus.workflow_no_permission_error, al_no_permission)
    ∷ (GlobalStatus.paos_error_al_communication_error, al_communication_error)
    ∷ (GlobalStatus.workflow_communication_missing_redirect_url, al_communication_error)
    ∷ (GlobalStatus.workflow_error_page_transmission_error, al_communication_error)
    ∷ (GlobalStatus.workflow_redirect_transmission_error, al_communication_error)
    ∷ (GlobalStatus.workflow_processing_error, al_communication_error)
    ∷ (GlobalStatus.workflow_reader_became_inaccessible, al_communication_error)
    ∷ (GlobalStatus.workflow_server_incomplete_information_provided, al_communication_error)
    ∷ (GlobalStatus.network_ssl_establishment_error, al_communication_error)
    ∷ (
      GlobalStatus.workflow_network_ssl_connection_unsupported_algorithm_or_length,
      al_communication_error,
    )
    ∷ (
      GlobalStatus.workflow_network_ssl_certificate_unsupported_algorithm_or_length,
      al_communication_error,
    )
    ∷ (
      GlobalStatus.workflow_network_ssl_hash_not_in_certificate_description, al_communication_error,
    )
    ∷ (GlobalStatus.workflow_network_empty_redirect_url, al_communication_error)
    ∷ (GlobalStatus.workflow_network_expected_redirect, al_communication_error)
    ∷ (GlobalStatus.workflow_network_invalid_scheme, al_communication_error)
    ∷ (GlobalStatus.workflow_network_malformed_redirect_url, al_communication_error)
    ∷ (GlobalStatus.network_service_unavailable, al_communication_error)
    ∷ (GlobalStatus.network_time_out, al_communication_error)
    ∷ (GlobalStatus.network_proxy_error, al_communication_error)
    ∷ (GlobalStatus.network_other_error, al_communication_error)
    ∷ (GlobalStatus.workflow_wrong_parameter_invocation, al_communication_error)
    ∷ (GlobalStatus.card_invalid_pin, al_communication_error)
    ∷ (GlobalStatus.card_invalid_can, al_communication_error)
    ∷ (GlobalStatus.card_invalid_puk, al_communication_error)
    ∷ (GlobalStatus.card_puk_blocked, al_communication_error)
    ∷ (GlobalStatus.card_new_pin_invalid_length, al_unknown_error)
    ∷ (GlobalStatus.workflow_already_in_progress_error, al_unknown_error)
    ∷ (GlobalStatus.card_not_found, al_unknown_error)
    ∷ (GlobalStatus.card_communication_error, al_unknown_error)
    ∷ (GlobalStatus.card_input_time_out, al_unknown_error)
    ∷ (GlobalStatus.card_pin_deactivated, al_unknown_error)
    ∷ (GlobalStatus.card_pin_blocked, al_unknown_error)
    ∷ (GlobalStatus.card_pin_not_blocked, al_unknown_error)
    ∷ (GlobalStatus.card_new_pin_mismatch, al_unknown_error)
    ∷ (
      GlobalStatus.card_validity_verification_failed,
      sal_meac_document_validity_verification_failed,
    )
    ∷ (GlobalStatus.paos_error_al_internal_error, al_internal_error)
    ∷ (GlobalStatus.workflow_cannot_confirm_id_card_authenticity, al_internal_error)
    ∷ (GlobalStatus.workflow_unknown_paos_from_eid_server, al_internal_error)
    ∷ (GlobalStatus.workflow_unexpected_message_from_eid_server, al_internal_error)
    ∷ (GlobalStatus.card_protocol_error, al_internal_error)
    ∷ (GlobalStatus.paos_generic_server_error, al_unkown_api_function)
    ∷ (GlobalStatus.paos_generic_server_error, al_not_initialized)
    ∷ (GlobalStatus.paos_generic_server_error, al_warning_connection_disconnected)
    ∷ (GlobalStatus.paos_generic_server_error, al_session_terminated_warning)
    ∷ (GlobalStatus.paos_generic_server_error, dp_timeout_error)
    ∷ (GlobalStatus.paos_generic_server_error, dp_unknown_channel_handle)
    ∷ (GlobalStatus.paos_generic_server_error, dp_communication_error)
    ∷ (GlobalStatus.paos_generic_server_error, dp_unknown_protocol)
    ∷ (GlobalStatus.paos_generic_server_error, dp_unknown_cipher_suite)
    ∷ (GlobalStatus.paos_generic_server_error, dp_unknown_webservice_binding)
    ∷ (GlobalStatus.paos_generic_server_error, dp_node_not_reachable)
    ∷ (GlobalStatus.paos_generic_server_error, ifdl_timeout_error)
    ∷ (GlobalStatus.paos_generic_server_error, ifdl_unknown_slot)
    ∷ (GlobalStatus.paos_generic_server_error, ifdl_invalid_slot_handle)
    ∷ (GlobalStatus.paos_generic_server_error, ifdl_ifd_sharing_violation)
    ∷ (GlobalStatus.paos_generic_server_error, ifdl_terminal_no_card)
    ∷ (GlobalStatus.paos_generic_server_error, ifdl_io_repeated_data_mismatch)
    ∷ (GlobalStatus.paos_generic_server_error, ifdl_io_unknown_pin_format)
    ∷ (GlobalStatus.paos_generic_server_error, key_key_generation_not_possible)
    ∷ (GlobalStatus.paos_generic_server_error, il_signature_invalid_certificate_path)
    ∷ (GlobalStatus.paos_generic_server_error, sal_security_condition_not_satisfied)
    ∷ (GlobalStatus.paos_generic_server_error, sal_meac_age_verification_failed_warning)
    ∷ (GlobalStatus.paos_generic_server_error, sal_meac_community_verification_failed_warning)
    ∷ (GlobalStatus.paos_error_sal_invalid_key, sal_invalid_key)
    ∷ (GlobalStatus.remote_reader_close_code_abnormal_close, al_unknown_error)
    ∷ (GlobalStatus.remote_connector_invalid_request, al_unknown_error)
    ∷ (GlobalStatus.remote_connector_no_supported_api_level, al_unknown_error)
    ∷ (GlobalStatus.remote_connector_connection_timeout, al_unknown_error)
    ∷ (GlobalStatus.remote_connector_connection_error, al_unknown_error)
    ∷ (GlobalStatus.remote_connector_remote_host_refused_connection, al_unknown_error)
    ∷ (GlobalStatus.downloader_file_not_found, al_unknown_error)
    ∷ (GlobalStatus.downloader_cannot_save_file, al_unknown_error)
    ∷ (GlobalStatus.downloader_data_corrupted, al_unknown_error)
    ∷ (GlobalStatus.downloader_missing_platform, al_unknown_error)
    ∷ (GlobalStatus.downloader_aborted, al_unknown_error)
    ∷ (GlobalStatus.update_execution_failed, al_unknown_error)
    ∷ []

-- `cConversionMap1` and `cConversionMap2`.
pub record ConversionMaps : Type 0 where
  pub to_minor : List (GlobalStatus × Minor)
  pub to_code : List (Minor × GlobalStatus)

unfoldable pub find_minor : List (GlobalStatus × Minor) → GlobalStatus → Option Minor
find_minor [] code = none
find_minor ((key, minor) ∷ rest) code =
    if code_number key == code_number code then some minor else find_minor rest code

unfoldable pub find_code : List (Minor × GlobalStatus) → Minor → Option GlobalStatus
find_code [] minor = none
find_code ((key, code) ∷ rest) minor =
    if minor_number key == minor_number minor then some code else find_code rest minor

-- A key that is there keeps its value.
unfoldable pub add_conversion_element : GlobalStatus → Minor → ConversionMaps → ConversionMaps
add_conversion_element code minor maps = record {
  to_minor = elim (find_minor maps.to_minor code) [
    | none ↦ maps.to_minor ++ ((code, minor) ∷ [])
    | some present ↦ maps.to_minor
  ];
  to_code = elim (find_code maps.to_code minor) [
    | none ↦ maps.to_code ++ ((minor, code) ∷ [])
    | some present ↦ maps.to_code
  ];
}

unfoldable pub add_conversion_elements :
    List (GlobalStatus × Minor) → ConversionMaps → ConversionMaps
add_conversion_elements [] maps = maps
add_conversion_elements ((code, minor) ∷ rest) maps =
    add_conversion_elements rest (add_conversion_element code minor maps)

unfoldable pub init_conversion_maps : ConversionMaps
unfolding add_conversion_elements conversion_elements
init_conversion_maps =
    add_conversion_elements conversion_elements (record { to_minor = []; to_code = [] })

-- `toStatus` and `fromStatus` of a code.
unfoldable pub to_code_of : Minor → GlobalStatus
to_code_of minor = elim (find_code init_conversion_maps.to_code minor) [
  | none ↦ GlobalStatus.unknown_error
  | some code ↦ code
]

unfoldable pub from_code : GlobalStatus → Minor
from_code code = elim (find_minor init_conversion_maps.to_minor code) [
  | none ↦ al_unknown_error
  | some minor ↦ minor
]

-- The major, the minor and the origin of a result.
pub record ECardApiResult : Type 0 where
  pub major : Major
  pub minor : Minor
  pub origin : Origin

abbrev pub is_ok_major : Major → Bool
is_ok_major major = elim major [ ok_major ↦ true | _ ↦ false ]

abbrev pub is_null : Minor → Bool
is_null minor = elim minor [ null_minor ↦ true | _ ↦ false ]

-- The constructor from codes, which makes an error of a combination that does not fit.
unfoldable pub make_result : Major → Minor → Origin → ECardApiResult
make_result major minor origin =
    let null_without_ok = not (is_ok_major major) && is_null minor in
    let ok_without_null = is_ok_major major && not (is_null minor) in
    if null_without_ok || ok_without_null
    then record { major = error_major; minor = al_internal_error; origin = origin }
    else record { major = major; minor = minor; origin = origin }

unfoldable pub from_status : GlobalStatus → Origin → ECardApiResult
unfolding make_result from_code
from_status GlobalStatus.no_error origin = make_result ok_major null_minor client
from_status status origin = make_result error_major (from_code status) origin

unfoldable pub is_valid_result : ECardApiResult → Bool
is_valid_result result = elim result.major [
  | unknown_major ↦ false
  | ok_major ↦ is_null result.minor
  | _ ↦ not (is_null result.minor)
]

unfoldable pub is_ok_result : ECardApiResult → Bool
is_ok_result result = is_ok_major result.major && is_null result.minor

unfoldable pub to_status : ECardApiResult → GlobalStatus
unfolding to_code_of is_ok_result
to_status result = elim result.major [
  | unknown_major ↦ GlobalStatus.unknown_error
  | ok_major ↦ if is_ok_result result then GlobalStatus.no_error else to_code_of result.minor
  | error_major ↦ to_code_of result.minor
  | warning_major ↦ GlobalStatus.paos_unexpected_warning
]
