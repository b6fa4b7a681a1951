-- ===== src/Gateway/Auth/Sessions.antt =====
-- auth/application/use-cases: login, logout and the renewal of the tokens;
-- security-devices/application/use-cases: the termination of sessions.
use somegram_backend.Prelude.{
  String, true, false, not, List, [], ◌∷◌, Option, none, some, map, without,
}
use somegram_backend.Effects.{◌>>=◌, ◌>>◌, pure, attempt, branch}
use somegram_backend.Outcome.{succeed, missing, deny_login, forbid, fail}
use somegram_backend.Gateway.Text.{same, is_blank}
use somegram_backend.Gateway.Types.{Session, TokensPair}
use somegram_backend.Gateway.UserEntity.{UserEntity}
use somegram_backend.Gateway.World.{Env, Service}
use somegram_backend.Gateway.Repositories.Users.{get_user_by_email}
use somegram_backend.Gateway.Repositories.Devices.{
  is_device, renew_session, update_last_active_date, get_device_by_id, delete_device,
  delete_sessions_by_id, get_devices_by_user_id,
}
use somegram_backend.Gateway.Auth.Service.{
  Answer, found, is_some, compare_pass, tokens_for, start_session,
}

abbrev pub denied : {T : Type 0} → Answer T
denied = deny_login none none

-- `if (!user.hashPassword)` is true of `null` and of the empty text.
abbrev pub filled : Option String → Option String
filled none = none
filled (some s) = elim (is_blank s) [ true ↦ none | false ↦ some s ]

module _ (E : Env) where
  unfoldable pub login_with :
      String → String → String → UserEntity → String → Service (Answer TokensPair)
  login_with password user_agent ip u hash = do
    verified ← compare_pass E password hash
    branch (not verified) (pure denied)
        (do tokens ← start_session E u.user.id user_agent ip; pure (succeed (some tokens)))

  unfoldable pub login_found : String → String → String → UserEntity → Service (Answer TokensPair)
  login_found password user_agent ip u = branch (is_some u.user_ban_info) (pure denied) (
      branch (not u.user.is_confirmed) (pure denied)
        (found denied (login_with password user_agent ip u) (filled u.user.hash_password)))

  unfoldable pub login : String → String → String → String → Service (Answer TokensPair)
  login email password user_agent ip =
      attempt
        (do
          user ← get_user_by_email E email
          found denied (login_found password user_agent ip) user)
        fail

  unfoldable pub logout : String → Service (Answer (Unit {0}))
  logout device_id = attempt (do delete_device E device_id; pure (succeed none)) fail

  unfoldable pub renew_found : String → String → Session → Service (Answer TokensPair)
  renew_found user_id device_id session = do
    issued ← tokens_for E user_id device_id
    update_last_active_date E (renew_session issued.1 session)
    pure (succeed (some issued.0))

  unfoldable pub renew_tokens : String → String → Service (Answer TokensPair)
  renew_tokens user_id device_id =
      attempt
        (do
          session ← get_device_by_id E device_id
          found denied (renew_found user_id device_id) session)
        fail

  unfoldable pub terminate_found : String → String → Session → Service (Answer (Unit {0}))
  terminate_found user_id device_id device =
      branch (not (same device.user_id user_id)) (pure (forbid none none))
        (do delete_device E device_id; pure (succeed none))

  unfoldable pub terminate_device_by_id : String → String → Service (Answer (Unit {0}))
  terminate_device_by_id user_id device_id =
      attempt
        (do
          device ← get_device_by_id E device_id
          found missing (terminate_found user_id device_id) device)
        fail

  -- `if (ids.length <= 0) return notFound()`
  unfoldable pub terminate_ids : List String → Service (Answer (Unit {0}))
  terminate_ids [] = pure missing
  terminate_ids (id ∷ ids) = do delete_sessions_by_id E (id ∷ ids); pure (succeed none)

  unfoldable pub terminate_others : String → List Session → Service (Answer (Unit {0}))
  terminate_others device_id sessions =
      terminate_ids (map (λ s. s.device_id) (without (is_device device_id) sessions))

  unfoldable pub terminate_devices_exclude_current : String → String → Service (Answer (Unit {0}))
  terminate_devices_exclude_current user_id device_id =
      attempt
        (do
          sessions ← get_devices_by_user_id E user_id
          found missing (terminate_others device_id) sessions)
        fail
