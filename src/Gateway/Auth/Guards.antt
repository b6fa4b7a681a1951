-- ===== src/Gateway/Auth/Guards.antt =====
-- common/guards/jwt: what the strategies of the guards accept once Passport has verified a token.
use somegram_backend.Prelude.{◌*◌, String, not, Option, none, some, ◌==◌}
use somegram_backend.Effects.{◌>>=◌, pure, branch}
use somegram_backend.Gateway.Text.{same}
use somegram_backend.Gateway.Types.{Session, RefreshPayload}
use somegram_backend.Gateway.UserEntity.{UserEntity}
use somegram_backend.Gateway.World.{Env, Service}
use somegram_backend.Gateway.Repositories.Users.{get_user_by_id}
use somegram_backend.Gateway.Repositories.Devices.{get_device_by_id}
use somegram_backend.Gateway.Auth.Service.{is_some}

-- `if (!user) return null; if (user.userBanInfo) return null;`
unfoldable pub if_allowed :
    {A : Type 0} → Service (Option A) → Option UserEntity → Service (Option A)
if_allowed next none = pure none
if_allowed next (some u) = branch (is_some u.user_ban_info) (pure none) next

-- The dates are compared as texts of the ISO format, which are equal if the dates are.
unfoldable pub if_current : RefreshPayload → Option Session → Service (Option RefreshPayload)
if_current payload none = pure none
if_current payload (some session) =
    branch (not (session.last_active_date == payload.iat * 1000)) (pure none)
      (branch (not (same session.user_id payload.user_id)) (pure none) (pure (some payload)))

module _ (E : Env) where
  -- `JwtStrategy`, of the access tokens
  unfoldable pub validate_access : String → Service (Option String)
  validate_access user_id = do
    user ← get_user_by_id E user_id
    if_allowed (pure (some user_id)) user

  -- `JwtRefreshTokenVerifyUserStrategy`
  unfoldable pub validate_refresh_user : RefreshPayload → Service (Option RefreshPayload)
  validate_refresh_user payload = do
    user ← get_user_by_id E payload.user_id
    if_allowed (pure (some payload)) user

  -- `JwtRefreshTokenStrategyStrategy`
  unfoldable pub validate_refresh : RefreshPayload → Service (Option RefreshPayload)
  validate_refresh payload = do
    user ← get_user_by_id E payload.user_id
    if_allowed (do session ← get_device_by_id E payload.device_id; if_current payload session) user
