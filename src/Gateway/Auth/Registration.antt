-- ===== src/Gateway/Auth/Registration.antt =====
-- auth/application/use-cases: registration, its confirmation and a new e-mail for it.
use somegram_backend.Prelude.{ℕ, ◌+◌, String, Bool, true, false, ◌||◌, Option, none, some, ltb}
use somegram_backend.Effects.{◌>>=◌, ◌>>◌, pure, attempt, branch}
use somegram_backend.Outcome.{succeed, refuse_request, missing, deny_login, fail}
use somegram_backend.Gateway.Text.{same}
use somegram_backend.Gateway.Types.{
  User, UserConfirmation, UserCreatedDto, RegistrationBodyInputDto,
}
use somegram_backend.Gateway.UserEntity.{UserEntity, registration_user_event}
use somegram_backend.Gateway.World.{Env, Service, read, publish, required, transactional}
use somegram_backend.Gateway.Repositories.Users.{
  get_user_by_email, get_user_by_username, create_not_confirmed_user, remove_user_by_id,
  get_user_by_token, confirm_user,
}
use somegram_backend.Gateway.Repositories.Codes.{
  remove_confirmation_by_token, update_confirmation, update_confirmation_by_token,
}
use somegram_backend.Gateway.Auth.Service.{
  Answer, found, is_some, confirmation_token, generate_hash,
}

-- `user && user.isConfirmed`
abbrev pub holds_confirmed : Option UserEntity → Bool
holds_confirmed none = false
holds_confirmed (some u) = u.user.is_confirmed

-- Which account has to make room; an id is never empty.
unfoldable pub handle_user : Option UserEntity → Option UserEntity → Option String
handle_user none none = none
handle_user (some u) none = some u.user.id
handle_user none (some v) = some v.user.id
handle_user (some u) (some v) = elim (same u.user.id v.user.id) [
  | true ↦ some u.user.id
  | false ↦ some v.user.id
]

unfoldable pub created_dto : RegistrationBodyInputDto → String → ℕ → String → ℕ → UserCreatedDto
created_dto dto hash_password current_date token expired_at = record {
  username = dto.username;
  email = dto.email;
  hash_password = hash_password;
  created_at = current_date;
  confirmation_token = token;
  confirmation_token_expires_at = expired_at;
  is_confirmed = false;
}

module _ (E : Env) where
  -- `if (userIdToDell) await this.userRepository.removeUserById(userIdToDell)`
  unfoldable pub remove_user : Option String → Service (Unit {0})
  remove_user none = pure tt
  remove_user (some id) = remove_user_by_id E id

  unfoldable pub execute_transaction : UserCreatedDto → Option String → Service User
  execute_transaction dto user_id_to_dell =
      transactional E (do remove_user user_id_to_dell; create_not_confirmed_user E dto)

  -- What follows the check that no confirmed user is in the way.
  unfoldable pub register : RegistrationBodyInputDto → Option String → Service (Answer (Unit {0}))
  register dto user_id_to_dell = do
    current_date ← read E.clock
    hash_password ← generate_hash E dto.password
    uuid ← read E.random_uuid
    let token = confirmation_token uuid
    let expired_at = current_date + E.email_confirmation_token_expire_after
    user ←
        execute_transaction (created_dto dto hash_password current_date token expired_at)
          user_id_to_dell
    publish (registration_user_event user token expired_at dto.html)
    pure (succeed none)

  unfoldable pub registration : RegistrationBodyInputDto → Service (Answer (Unit {0}))
  registration dto =
      attempt
        (do
          by_email ← get_user_by_email E dto.email
          by_username ← get_user_by_username E dto.username
          branch (holds_confirmed by_email || holds_confirmed by_username)
              (pure (refuse_request "The user already exists" none))
              (register dto (handle_user by_email by_username)))
        fail

  unfoldable pub handle_confirm : String → String → Service (Unit {0})
  handle_confirm user_id token =
      transactional E (do confirm_user E user_id; remove_confirmation_by_token E token)

  unfoldable pub confirm_found :
      ℕ → UserEntity × Option UserConfirmation → Service (Answer (Unit {0}))
  confirm_found current_date (u, c) =
      branch (is_some u.user_ban_info) (pure (deny_login none none)) (do
        confirmation ← required c
        branch (ltb confirmation.expired_at current_date)
            (pure (refuse_request "Token is expired" none))
            (do handle_confirm u.user.id confirmation.token; pure (succeed none)))

  unfoldable pub registration_confirmation : String → Service (Answer (Unit {0}))
  registration_confirmation token =
      attempt
        (do
          current_date ← read E.clock
          result ← get_user_by_token E token
          found missing (confirm_found current_date) result)
        fail

  -- `user.isConfirmed || !confirmation`
  unfoldable pub resend_to :
      String → String → User → Option UserConfirmation → Service (Answer (Unit {0}))
  resend_to token html u none = pure (refuse_request "The user is confirmed" none)
  resend_to token html u (some c) =
      branch u.is_confirmed (pure (refuse_request "The user is confirmed" none)) (do
        uuid ← read E.random_uuid
        current_date ← read E.clock
        let new_token = confirmation_token uuid
        let expired_at = current_date + E.email_confirmation_token_expire_after
        update_confirmation_by_token E (update_confirmation new_token expired_at c) token
        publish (registration_user_event u new_token expired_at html)
        pure (succeed none))

  unfoldable pub resend_found :
      String → String → UserEntity × Option UserConfirmation → Service (Answer (Unit {0}))
  resend_found token html (u, c) =
      branch (is_some u.user_ban_info) (pure (deny_login none none)) (resend_to token html u.user c)

  unfoldable pub registration_email_resending : String → String → Service (Answer (Unit {0}))
  registration_email_resending token html =
      attempt
        (do result ← get_user_by_token E token; found missing (resend_found token html) result) fail
