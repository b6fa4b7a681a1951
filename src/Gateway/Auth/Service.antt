-- ===== src/Gateway/Auth/Service.antt =====
-- auth/application/auth.service.ts, and what the use cases of features/auth answer.
use somegram_backend.Prelude.{ℕ, ◌*◌, String, Bool, true, false, Option, none, some}
use somegram_backend.Effects.{◌>>=◌, ◌>>◌, pure}
use somegram_backend.Outcome.{AppNotificationResult}
use somegram_backend.Gateway.Text.{slice, join, without_dashes, before_at}
use somegram_backend.Gateway.Types.{RefreshPayload, TokensPair}
use somegram_backend.Gateway.World.{Env, Service, call, read}
use somegram_backend.Gateway.Repositories.Devices.{create_session}

abbrev pub Answer : Type 0 → Type 0
Answer T = AppNotificationResult T String

-- `if (!x) return …`
unfoldable pub found :
    {A T : Type 0} → Answer T → (A → Service (Answer T)) → Option A → Service (Answer T)
found absent next none = pure absent
found absent next (some a) = next a

abbrev pub is_some : {A : Type 0} → Option A → Bool
is_some none = false
is_some (some a) = true

unfoldable pub confirmation_token : String → String
confirmation_token uuid = without_dashes uuid

unfoldable pub generate_uniq_user_name : String → String → String
generate_uniq_user_name uuid email =
    let base_name = before_at email in
    let unique_part = slice 8 (without_dashes uuid) in
    slice 30 (join base_name (join "-" unique_part))

unfoldable pub device_id_of : String → String → String
device_id_of uuid user_id = join (slice 10 uuid) (join "-" user_id)

module _ (E : Env) where
  unfoldable pub generate_hash : String → Service String
  generate_hash password = call λ n. E.hash n password

  unfoldable pub compare_pass : String → String → Service Bool
  compare_pass password hash = call λ n. E.compare n password hash

  unfoldable pub generate_device_id : String → Service String
  generate_device_id user_id = do uuid ← read E.random_uuid; pure (device_id_of uuid user_id)

  unfoldable pub generate_access_token : String → Service String
  generate_access_token user_id = call λ n. E.sign_access n user_id

  unfoldable pub generate_refresh_token : String → String → Service String
  generate_refresh_token user_id device_id = call λ n. E.sign_refresh n user_id device_id

  -- `null` where the token is refused, of which the callers read a field at once.
  unfoldable pub verify_refresh_token : String → Service RefreshPayload
  verify_refresh_token token = call λ n. E.verify_refresh n token

  -- The tokens of a device, and the date of the refresh token.
  unfoldable pub tokens_for : String → String → Service (TokensPair × ℕ)
  tokens_for user_id device_id = do
    access_token ← generate_access_token user_id
    refresh_token ← generate_refresh_token user_id device_id
    payload ← verify_refresh_token refresh_token
    pure (record { access_token = access_token; refresh_token = refresh_token }, payload.iat * 1000)

  -- The new session of a user, with which each way to sign in ends.
  unfoldable pub start_session : String → String → String → Service TokensPair
  start_session user_id user_agent ip = do
    device_id ← generate_device_id user_id
    issued ← tokens_for user_id device_id
    create_session E (record {
      user_id = user_id;
      ip = ip;
      device_id = device_id;
      last_active_date = issued.1;
      title = user_agent;
    })
    pure issued.0
