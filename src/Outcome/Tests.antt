-- ===== src/Outcome/Tests.antt =====
-- Results of a use case and their exceptions.
use somegram_backend.Prelude.{ℕ, ◌≡◌, ◌↔◌, ◌⊎◌, none, some}
use somegram_backend.Outcome.{
  success, bad_request, internal_error, AppNotificationResult, refuse_request, missing,
  ws_internal_error, handle_http_result, handle_ws_result,
}
use somegram_backend.Outcome.Translation.{handle_http_result_faithful, handle_ws_result_agrees}

abbrev bad_field : AppNotificationResult ℕ ℕ
bad_field = refuse_request 4 none

abbrev no_row : AppNotificationResult ℕ ℕ
no_row = missing

handle_http_result_faithful_example :
    ((handle_http_result bad_field ≡ none) ↔ (bad_field.app_result ≡ success))
    × (handle_http_result bad_field ≡ handle_http_result no_row
        → bad_field.app_result ≡ no_row.app_result)
handle_http_result_faithful_example = handle_http_result_faithful bad_field no_row

handle_ws_result_agrees_example :
    ((handle_ws_result bad_field ≡ none) ↔ (handle_http_result bad_field ≡ none))
    × ((handle_ws_result bad_field ≡ some ws_internal_error)
        ↔ ((bad_field.app_result ≡ bad_request) ⊎ (bad_field.app_result ≡ internal_error)))
handle_ws_result_agrees_example = handle_ws_result_agrees bad_field
