-- ===== src/Card/ECardApi/Converted.antt =====
-- What the tables of the eCard-API keep of a status.
use ausweis_app.Prelude.{Bool, true, false, ◌≡◌, refl, Option, none, some}
use ausweis_app.Card.ReturnCode.{GlobalStatus, is_no_error, is_cancellation_by_user}
use ausweis_app.Card.ECardApi.{
  Minor, Origin, null_minor, find_minor, find_code, init_conversion_maps, conversion_elements,
  add_conversion_element, add_conversion_elements, code_number, minor_number, from_code, to_code_of,
  make_result, from_status, to_status, is_valid_result, is_ok_result,
}

abbrev pub is_some {ℓ} : {A : Type ℓ} → Option A → Bool
is_some none = false
is_some (some x) = true

-- No code and no minor is missing in the tables, so that the assertions on them hold.
pub find_minor-is_some :
    (code : GlobalStatus) → is_some (find_minor init_conversion_maps.to_minor code) ≡ true
unfolding init_conversion_maps add_conversion_elements add_conversion_element find_minor find_code
    conversion_elements code_number minor_number
find_minor-is_some GlobalStatus.no_error = refl
find_minor-is_some code = refl

pub find_code-is_some :
    (minor : Minor) → is_some (find_code init_conversion_maps.to_code minor) ≡ true
unfolding init_conversion_maps add_conversion_elements add_conversion_element find_minor find_code
    conversion_elements code_number minor_number
find_code-is_some null_minor = refl
find_code-is_some minor = refl

-- The result of a status is valid, is OK exactly for no error, and its status is an error, and a
-- cancellation by the user, exactly where the first one is.
pub to_status-from_status :
    (code : GlobalStatus) (origin : Origin)
    → (is_valid_result (from_status code origin) ≡ true)
      × (is_ok_result (from_status code origin) ≡ is_no_error code)
      × (is_no_error (to_status (from_status code origin)) ≡ is_no_error code)
      × (is_cancellation_by_user (to_status (from_status code origin))
          ≡ is_cancellation_by_user code)
unfolding from_status make_result is_valid_result is_ok_result to_status from_code to_code_of
    init_conversion_maps add_conversion_elements add_conversion_element find_minor find_code
    conversion_elements code_number minor_number is_no_error is_cancellation_by_user
to_status-from_status GlobalStatus.no_error origin = (refl, refl, refl, refl)
to_status-from_status code origin = (refl, refl, refl, refl)
