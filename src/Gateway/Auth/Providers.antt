-- ===== src/Gateway/Auth/Providers.antt =====
-- auth/application/use-cases: sign-in with Google and with GitHub.
use somegram_backend.Prelude.{String, true, not, ◌||◌, Option, none, some}
use somegram_backend.Effects.{◌>>=◌, ◌>>◌, pure, attempt, branch}
use somegram_backend.Outcome.{succeed, refuse_request, fail}
use somegram_backend.Gateway.Text.{is_blank}
use somegram_backend.Gateway.Types.{
  User, UserGoogleAccount, UserGithubAccount, GoogleProfile, GithubProfile, TokensPair,
}
use somegram_backend.Gateway.UserEntity.{UserEntity, registration_success_event}
use somegram_backend.Gateway.World.{Env, Service, read, publish, transactional}
use somegram_backend.Gateway.Repositories.Users.{
  get_user_by_google_sub, get_user_by_email_with_google_info, get_user_by_github_id,
  get_user_by_email_with_github_info, create_user_by_google, create_user_by_github, confirm_user,
}
use somegram_backend.Gateway.Repositories.Codes.{add_google_info_to_user, add_github_info_to_user}
use somegram_backend.Gateway.Auth.Service.{Answer, is_some, generate_uniq_user_name, start_session}
use somegram_backend.Gateway.Auth.Sessions.{denied}

unfoldable pub google_account : GoogleProfile → String → UserGoogleAccount
google_account p user_id = record {
  user_id = user_id;
  sub = p.google_id;
  email = p.google_email;
  email_verified = p.google_email_verified;
}

unfoldable pub github_account : GithubProfile → String → UserGithubAccount
github_account p user_id = record {
  user_id = user_id;
  github_id = p.github_id;
  user_name = p.username;
  display_name = p.display_name;
  email = p.email;
}

module _ (E : Env) where
  -- `if (!user.isConfirmed) await this.userRepository.confirmUser(user.id)`
  unfoldable pub confirm_if_needed : User → Service (Unit {0})
  confirm_if_needed u = branch (not u.is_confirmed) (confirm_user E u.id) (pure tt)

  -- The account of the user who signs in, recorded for a known user or for a new one.
  unfoldable pub google_user : GoogleProfile → Option User → Service User
  google_user p (some u) = do
    add_google_info_to_user E (google_account p u.id)
    confirm_if_needed u
    pure u
  google_user p none = do
    created_at ← read E.clock
    uuid ← read E.random_uuid
    u ← create_user_by_google E (record {
      username = generate_uniq_user_name uuid p.google_email;
      email = p.google_email;
      created_at = created_at;
      is_confirmed = true;
    })
    add_google_info_to_user E (google_account p u.id)
    pure u

  unfoldable pub github_user : GithubProfile → Option User → Service User
  github_user p (some u) = do
    add_github_info_to_user E (github_account p u.id)
    confirm_if_needed u
    pure u
  github_user p none = do
    created_at ← read E.clock
    uuid ← read E.random_uuid
    u ← create_user_by_github E (record {
      username = generate_uniq_user_name uuid p.email;
      email = p.email;
      created_at = created_at;
      is_confirmed = true;
      first_name = p.display_name;
    })
    add_github_info_to_user E (github_account p u.id)
    pure u

  -- `handleUser` of both use cases.
  unfoldable pub handle_user : Service User → String → String → Service TokensPair
  handle_user user user_agent ip = transactional E (do
    u ← user
    tokens ← start_session E u.id user_agent ip
    publish (registration_success_event u)
    pure tokens)

  -- The user whom the provider's account belongs to.
  unfoldable pub known_user : String → String → UserEntity → Service (Answer TokensPair)
  known_user user_agent ip u =
      branch (is_some u.user_ban_info) (pure denied)
        (do tokens ← start_session E u.user.id user_agent ip; pure (succeed (some tokens)))

  unfoldable pub signed_in : Service User → String → String → Service (Answer TokensPair)
  signed_in user user_agent ip = do
    tokens ← handle_user user user_agent ip
    pure (succeed (some tokens))

  -- The user with the e-mail of the profile, and the provider's account that it may have already.
  unfoldable pub by_email :
      {A : Type 0}
      → (Option User → Service User)
      → String
      → String
      → Option (UserEntity × Option A)
      → Service (Answer TokensPair)
  by_email user user_agent ip none = signed_in (user none) user_agent ip
  by_email user user_agent ip (some (u, account)) =
      branch (is_some account) (pure (refuse_request "User already exist" none)) (
        branch (is_some u.user_ban_info) (pure denied)
          (signed_in (user (some u.user)) user_agent ip))

  unfoldable pub profile_sign_in :
      {A : Type 0}
      → (Option User → Service User)
      → String
      → String
      → Option UserEntity
      → Option (UserEntity × Option A)
      → Service (Answer TokensPair)
  profile_sign_in user user_agent ip (some u) with_info = known_user user_agent ip u
  profile_sign_in user user_agent ip none with_info = by_email user user_agent ip with_info

  unfoldable pub login_by_google : GoogleProfile → String → String → Service (Answer TokensPair)
  login_by_google p ip user_agent =
      attempt
        (branch (is_blank ip || is_blank user_agent) (pure (refuse_request "Bad input data" none)) (
          branch (not p.google_email_verified)
            (pure (refuse_request "Google email not verified" none))
            (do
              user ← get_user_by_google_sub E p.google_id
              with_info ← get_user_by_email_with_google_info E p.google_email
              profile_sign_in (google_user p) user_agent ip user with_info)))
        fail

  unfoldable pub auth_with_github : GithubProfile → String → String → Service (Answer TokensPair)
  auth_with_github p ip user_agent =
      attempt
        (branch (is_blank ip || is_blank user_agent) (pure (refuse_request "Bad input data" none))
          (do
            user ← get_user_by_github_id E p.github_id
            with_info ← get_user_by_email_with_github_info E p.email
            profile_sign_in (github_user p) user_agent ip user with_info))
        fail
