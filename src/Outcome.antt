-- ===== src/Outcome.antt =====
-- libs/application-notification/src: the result that every use case returns (types.ts, enum.ts,
-- application-notification.service.ts), and its translation into an HTTP or a WebSocket exception.
-- A function that returns without throwing is `none`; a value that may be `null` or `undefined` is
-- an `Option`.
pub mod Translation
mod Tests
use somegram_backend.Prelude.{Option, none, some}

pub data AppNotificationResultEnum : Type 0 where
  success not_found bad_request forbidden unauthorized internal_error unprocessable_entity :
      AppNotificationResultEnum

pub record AppNotificationResult (T F : Type 0) : Type 0 where
  pub app_result : AppNotificationResultEnum
  pub payload : Option T
  pub error_field : Option F

module _ {T F : Type 0} where
  abbrev pub result : AppNotificationResultEnum → Option T → Option F → AppNotificationResult T F
  result e t f = record { app_result = e; payload = t; error_field = f }

  abbrev pub succeed : Option T → AppNotificationResult T F
  succeed payload = result success payload none

  abbrev pub refuse_request : F → Option T → AppNotificationResult T F
  refuse_request field additionally = result bad_request additionally (some field)

  abbrev pub missing : AppNotificationResult T F
  missing = result not_found none none

  abbrev pub deny_login : Option T → Option F → AppNotificationResult T F
  deny_login payload error = result unauthorized payload error

  abbrev pub forbid : Option T → Option F → AppNotificationResult T F
  forbid payload error = result forbidden payload error

  abbrev pub fail : AppNotificationResult T F
  fail = result internal_error none none

pub data HttpException (F : Type 0) : Type 0 where
  not_found_exception unauthorized_exception forbidden_exception internal_server_error_exception :
      HttpException F
  bad_request_exception unprocessable_entity_exception : Option F → HttpException F

pub data WsException (F : Type 0) : Type 0 where
  ws_not_found ws_unauthorized ws_forbidden ws_internal_error : WsException F
  ws_unprocessable_entity : Option F → WsException F

module _ {F : Type 0} where
  http_error : AppNotificationResultEnum → Option F → Option (HttpException F)
  http_error success field = none
  http_error not_found field = some not_found_exception
  http_error bad_request field = some (bad_request_exception field)
  http_error unauthorized field = some unauthorized_exception
  http_error forbidden field = some forbidden_exception
  http_error unprocessable_entity field = some (unprocessable_entity_exception field)
  http_error internal_error field = some internal_server_error_exception

  ws_error : AppNotificationResultEnum → Option F → Option (WsException F)
  ws_error success field = none
  ws_error not_found field = some ws_not_found
  ws_error unauthorized field = some ws_unauthorized
  ws_error forbidden field = some ws_forbidden
  ws_error unprocessable_entity field = some (ws_unprocessable_entity field)
  ws_error bad_request field = some ws_internal_error
  ws_error internal_error field = some ws_internal_error

module _ {T F : Type 0} where
  unfoldable pub handle_http_result : AppNotificationResult T F → Option (HttpException F)
  unfolding http_error
  handle_http_result r = http_error r.app_result r.error_field

  unfoldable pub handle_ws_result : AppNotificationResult T F → Option (WsException F)
  unfolding ws_error
  handle_ws_result r = ws_error r.app_result r.error_field
