-- ===== src/Gateway/Tests/Runs/Sessions.antt =====
-- Cases of a confirmation, a new password and the sessions.
use somegram_backend.Prelude.{◌≡◌, refl, String, ℕ, ◌⊎◌, true, none, some, Occurs}
use somegram_backend.Effects.{ok, ◌>>=◌, pure, attempt, branch}
use somegram_backend.Outcome.{succeed}
use somegram_backend.Gateway.Types.{User, Session, RefreshPayload, TokensPair}
use somegram_backend.Gateway.World.{required, World, query, call, read, change, transactional}
use somegram_backend.Gateway.Repositories.Users
use somegram_backend.Gateway.Repositories.Users.{
  has_code, get_user_by_token, get_user_by_reset_password_code, get_user_by_email,
  get_user_by_username, create_not_confirmed_user, remove_user_by_id, cascade, new_user,
  new_confirmation, confirm_user, confirmed, get_user_by_google_sub,
  get_user_by_email_with_google_info,
}
use somegram_backend.Gateway.Repositories.Codes.{
  remove_confirmation_by_token, remove_reset_password_by_code,
}
use somegram_backend.Gateway.Repositories.Devices.{
  delete_all_sessions_for_user, get_devices_by_user_id, delete_sessions_by_id, get_device_by_id,
  update_last_active_date, renew_session,
}
use somegram_backend.Gateway.Auth.Registration.{
  confirm_found, handle_confirm, registration_confirmation,
}
use somegram_backend.Gateway.Auth.Passwords.{
  reset_found, handle_update_password, restore_password_confirmation,
}
use somegram_backend.Gateway.Auth.Sessions.{
  terminate_others, terminate_ids, renew_tokens, renew_found, terminate_devices_exclude_current,
}
use somegram_backend.Gateway.Auth.Service.{
  Answer, found, tokens_for, generate_access_token, generate_refresh_token, verify_refresh_token,
  generate_hash,
}
use somegram_backend.Gateway.UserEntity
use somegram_backend.Gateway.UserEntity.{registration_user_event, registration_success_event}
use somegram_backend.Gateway.Logic.{Runs}
use somegram_backend.Gateway.Accounts.Spent.{
  Refuses, registration_confirmation-IsSpent, restore_password_confirmation-SignsOut,
}
use somegram_backend.Gateway.Auth.Guards.{validate_refresh}
use somegram_backend.Gateway.Logic.Calls.{Yields}
use somegram_backend.Gateway.Accounts.Rotation.{renew_tokens-Rotates}
use somegram_backend.Gateway.Accounts.Alone.{Left, terminate_others-Left}
use somegram_backend.Gateway.Tests.Sample.{sample, sample_laws}
use somegram_backend.Gateway.Tests.Runs.{two_users, in_world}

abbrev pub on_two : World
on_two = in_world two_users

abbrev pub success : {T : Type 0} → Answer T
success = succeed none

pub confirmation_succeeds : (registration_confirmation sample "t2" on_two).0 ≡ ok success
unfolding sample ◌>>=◌ pure attempt branch query call read change transactional required found
    registration_confirmation confirm_found handle_confirm get_user_by_token confirm_user
    remove_confirmation_by_token
confirmation_succeeds = refl

pub registration_confirmation-IsSpent_example :
    Refuses
      (registration_confirmation sample "t2" on_two).1.state
      (registration_confirmation sample "t2")
registration_confirmation-IsSpent_example =
    registration_confirmation-IsSpent sample_laws "t2" on_two success confirmation_succeeds refl

pub reset_succeeds : (restore_password_confirmation sample "c1" "new secret" on_two).0 ≡ ok success
unfolding sample ◌>>=◌ pure attempt branch query call read change transactional required found
    restore_password_confirmation reset_found handle_update_password generate_hash
    get_user_by_reset_password_code Users.update_password remove_reset_password_by_code
    delete_all_sessions_for_user UserEntity.update_password
reset_succeeds = refl

pub restore_password_confirmation-SignsOut_example :
    (u : User) × Occurs u two_users.db.users
    × (has_code two_users.db "c1" u ≡ true)
    × ((x : Session)
        → Occurs x two_users.db.sessions
        → x.user_id ≡ u.id
        → Refuses
            (restore_password_confirmation sample "c1" "new secret" on_two).1.state
            (renew_tokens sample x.user_id x.device_id))
restore_password_confirmation-SignsOut_example =
    restore_password_confirmation-SignsOut sample_laws "c1" "new secret" on_two success
      ((refl, tt), (tt, tt)) reset_succeeds refl

pub termination_succeeds : (terminate_devices_exclude_current sample "1" "d1" on_two).0 ≡ ok success
unfolding sample ◌>>=◌ pure attempt query change found terminate_devices_exclude_current
    terminate_others terminate_ids get_devices_by_user_id delete_sessions_by_id
termination_succeeds = refl

pub terminate_others-Left_example :
    Left "1" "d1" two_users (terminate_devices_exclude_current sample "1" "d1" on_two).1.state
terminate_others-Left_example =
    terminate_others-Left sample_laws "1" "d1" on_two success ((refl, tt), (tt, tt))
      termination_succeeds refl

abbrev pub new_tokens : Answer TokensPair
new_tokens = succeed (some (record { access_token = "1"; refresh_token = "d1" }))

pub renewal_succeeds : (renew_tokens sample "1" "d1" on_two).0 ≡ ok new_tokens
unfolding sample ◌>>=◌ pure attempt query call change found renew_tokens renew_found
    get_device_by_id tokens_for generate_access_token generate_refresh_token verify_refresh_token
    update_last_active_date renew_session
renewal_succeeds = refl

pub renew_tokens-Rotates_example :
    (tokens : TokensPair) × (issued : RefreshPayload) × (new_tokens.payload ≡ some tokens)
    × Yields (λ n. sample.sign_access n "1") tokens.access_token
    × Yields (λ n. sample.sign_refresh n "1" "d1") tokens.refresh_token
    × Yields (λ n. sample.verify_refresh n tokens.refresh_token) issued
    × ((owner : String) (iat : ℕ)
        → Runs
            (renew_tokens sample "1" "d1" on_two).1.state
            (λ o _. (o ≡ none) ⊎ (iat ≡ issued.iat))
            (λ _. Unit {0})
            (validate_refresh sample (record { user_id = owner; device_id = "d1"; iat = iat })))
renew_tokens-Rotates_example =
    renew_tokens-Rotates sample_laws "1" "d1" on_two new_tokens renewal_succeeds refl
