-- ===== src/Gateway/Commands.antt =====
-- The use cases of features/auth, features/security-devices and of the followers as commands, one after another.
use somegram_backend.Prelude.{String, Bool, List, [], ◌∷◌}
use somegram_backend.Effects.{◌>>=◌, pure}
use somegram_backend.Gateway.Types.{RegistrationBodyInputDto, GoogleProfile, GithubProfile}
use somegram_backend.Gateway.World.{Env, Service}
use somegram_backend.Gateway.Auth.Service.{Answer}
use somegram_backend.Gateway.Auth.Registration.{
  registration, registration_confirmation, registration_email_resending,
}
use somegram_backend.Gateway.Auth.Passwords.{restore_password, restore_password_confirmation}
use somegram_backend.Gateway.Auth.Sessions.{
  login, logout, renew_tokens, terminate_device_by_id, terminate_devices_exclude_current,
}
use somegram_backend.Gateway.Auth.Providers.{login_by_google, auth_with_github}
use somegram_backend.Gateway.Following.{follow, unfollow, delete_follower}
use somegram_backend.Gateway.Logic.Promises.{is_success}

pub data Command : Type 0 where
  registration_command : RegistrationBodyInputDto → Command
  registration_confirmation_command : (token : String) → Command
  registration_email_resending_command : (token html : String) → Command
  restore_password_command : (email html : String) → Command
  restore_password_confirmation_command : (code password : String) → Command
  login_command : (email password user_agent ip : String) → Command
  logout_command : (device_id : String) → Command
  renew_tokens_command : (user_id device_id : String) → Command
  terminate_device_command : (user_id device_id : String) → Command
  terminate_others_command : (user_id device_id : String) → Command
  follow_command : (user_id followee_id : String) → Command
  unfollow_command : (user_id followee_id : String) → Command
  delete_follower_command : (user_id follower_id : String) → Command
  google_command : GoogleProfile → (ip user_agent : String) → Command
  github_command : GithubProfile → (ip user_agent : String) → Command

-- Whether the use case has answered success.
unfoldable pub succeeded : {T : Type 0} → Service (Answer T) → Service Bool
succeeded m = do a ← m; pure (is_success a.app_result)

module _ (E : Env) where
  unfoldable pub execute : Command → Service Bool
  execute (registration_command dto) = succeeded (registration E dto)
  execute (registration_confirmation_command token) = succeeded (registration_confirmation E token)
  execute (registration_email_resending_command token html) =
      succeeded (registration_email_resending E token html)
  execute (restore_password_command email html) = succeeded (restore_password E email html)
  execute (restore_password_confirmation_command code password) =
      succeeded (restore_password_confirmation E code password)
  execute (login_command email password user_agent ip) =
      succeeded (login E email password user_agent ip)
  execute (logout_command device_id) = succeeded (logout E device_id)
  execute (renew_tokens_command user_id device_id) = succeeded (renew_tokens E user_id device_id)
  execute (terminate_device_command user_id device_id) =
      succeeded (terminate_device_by_id E user_id device_id)
  execute (terminate_others_command user_id device_id) =
      succeeded (terminate_devices_exclude_current E user_id device_id)
  execute (follow_command user_id followee_id) = succeeded (follow E user_id followee_id)
  execute (unfollow_command user_id followee_id) = succeeded (unfollow E user_id followee_id)
  execute (delete_follower_command user_id follower_id) =
      succeeded (delete_follower E user_id follower_id)
  execute (google_command p ip user_agent) = succeeded (login_by_google E p ip user_agent)
  execute (github_command p ip user_agent) = succeeded (auth_with_github E p ip user_agent)

  unfoldable pub run : List Command → Service (Unit {0})
  run [] = pure tt
  run (c ∷ cs) = execute c >>= λ _. run cs
