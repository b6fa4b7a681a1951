-- ===== src/Gateway/Auth/Passwords.antt =====
-- auth/application/use-cases: the code that restores a password, and the new password.
use somegram_backend.Prelude.{ℕ, ◌+◌, String, Option, none, some, ltb}
use somegram_backend.Effects.{◌>>=◌, ◌>>◌, pure, attempt, branch}
use somegram_backend.Outcome.{succeed, refuse_request, missing, deny_login, fail}
use somegram_backend.Gateway.Types.{User, UserResetPassword}
use somegram_backend.Gateway.UserEntity
use somegram_backend.Gateway.UserEntity.{UserEntity, password_recovery_event}
use somegram_backend.Gateway.World.{Env, Service, read, publish, required, transactional}
use somegram_backend.Gateway.Repositories.Users.{
  get_user_by_email, get_user_by_reset_password_code, update_password,
}
use somegram_backend.Gateway.Repositories.Codes.{
  update_reset_password, create_reset_password, remove_reset_password_by_code,
  update_reset_password_by_code, get_reset_password_by_user_id,
}
use somegram_backend.Gateway.Repositories.Devices.{delete_all_sessions_for_user}
use somegram_backend.Gateway.Auth.Service.{
  Answer, found, is_some, confirmation_token, generate_hash,
}

module _ (E : Env) where
  -- The code replaces the one that the user has, or is the user's first.
  unfoldable pub store_code :
      String → String → ℕ → ℕ → Option UserResetPassword → Service (Unit {0})
  store_code user_id code current_date expired_at (some last) =
      update_reset_password_by_code E (update_reset_password code expired_at last) last.code
  store_code user_id code current_date expired_at none = create_reset_password E (record {
    user_id = user_id;
    code = code;
    expired_at = expired_at;
    created_at = current_date;
  })

  unfoldable pub restore_found : ℕ → String → UserEntity → Service (Answer (Unit {0}))
  restore_found current_date html u =
      branch (is_some u.user_ban_info) (pure (deny_login none none)) (do
        reset_password ← get_reset_password_by_user_id E u.user.id
        uuid ← read E.random_uuid
        let code = confirmation_token uuid
        let expired_at = current_date + E.restore_password_code_expire_after
        store_code u.user.id code current_date expired_at reset_password
        publish (password_recovery_event u.user code html)
        pure (succeed none))

  unfoldable pub restore_password : String → String → Service (Answer (Unit {0}))
  restore_password email html =
      attempt
        (do
          current_date ← read E.clock
          user ← get_user_by_email E email
          found missing (restore_found current_date html) user)
        fail

  unfoldable pub handle_update_password : User → String → Service (Unit {0})
  handle_update_password u code = transactional E (do
    update_password E u
    remove_reset_password_by_code E code
    delete_all_sessions_for_user E u.id)

  unfoldable pub reset_found :
      ℕ → String → String → UserEntity × Option UserResetPassword → Service (Answer (Unit {0}))
  reset_found current_date code password (u, c) =
      branch (is_some u.user_ban_info) (pure (deny_login none none)) (do
        reset_password ← required c
        branch (ltb reset_password.expired_at current_date)
            (pure (refuse_request "Restore password confirmation failed due to expired code." none))
            (do
              hash_password ← generate_hash E password
              handle_update_password (UserEntity.update_password u.user hash_password) code
              pure (succeed none)))

  unfoldable pub restore_password_confirmation : String → String → Service (Answer (Unit {0}))
  restore_password_confirmation code password =
      attempt
        (do
          current_date ← read E.clock
          result ← get_user_by_reset_password_code E code
          found (refuse_request "Restore password confirmation failed due to Invalid code." none)
              (reset_found current_date code password) result)
        fail
