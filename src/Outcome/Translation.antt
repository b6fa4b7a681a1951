-- ===== src/Outcome/Translation.antt =====
-- What a client can tell from the exception into which a result is translated.
use somegram_backend.Prelude.{◌≡◌, ◌↔◌, ◌⊎◌, none, some, arith}
use somegram_backend.Outcome.{
  success, bad_request, internal_error, AppNotificationResult, ws_internal_error,
  handle_http_result, handle_ws_result,
}

module _ {T F : Type 0} where
  -- An HTTP call throws exactly when the result is not a success, and two results that throw the
  -- same exception have the same code.
  pub handle_http_result_faithful :
      (r s : AppNotificationResult T F)
      → ((handle_http_result r ≡ none) ↔ (r.app_result ≡ success))
        × (handle_http_result r ≡ handle_http_result s → r.app_result ≡ s.app_result)
  unfolding handle_http_result
  handle_http_result_faithful r s = ((λ e. ground arith, λ e. ground arith), λ e. ground arith)

  -- A WebSocket call throws exactly when an HTTP call does, and it reports an internal error
  -- exactly for the codes `bad_request` and `internal_error`.
  pub handle_ws_result_agrees :
      (r : AppNotificationResult T F)
      → ((handle_ws_result r ≡ none) ↔ (handle_http_result r ≡ none))
        × ((handle_ws_result r ≡ some ws_internal_error)
            ↔ ((r.app_result ≡ bad_request) ⊎ (r.app_result ≡ internal_error)))
  unfolding handle_http_result handle_ws_result
  handle_ws_result_agrees r =
      ((λ e. ground arith, λ e. ground arith), (λ e. ground arith, λ e. ground arith))
