-- ===== src/Gateway/Tests/Runs.antt =====
-- Cases of sign-up, sign-in and the sessions.
mod Sessions
mod Entering
use somegram_backend.Prelude.{
  map, ◌≡◌, ◌≤◌, refl, sym, ap, ◌∙◌, String, Bool, ℕ, ◌⊎◌, true, false, List, [], ◌∷◌, none, some,
  inl, inr, Occurs, arith,
}
use somegram_backend.Effects.{ok, ◌>>=◌, pure, attempt, branch}
use somegram_backend.Outcome.{succeed}
use somegram_backend.Gateway.Text.{text_length, before_at, slice, without_dashes, differ→ne}
use somegram_backend.Gateway.Types.{
  personal, User, Session, RegistrationBodyInputDto, GoogleProfile, RefreshPayload, TokensPair,
}
use somegram_backend.Gateway.World.{
  required, State, World, query, call, read, change, publish, transactional,
}
use somegram_backend.Gateway.Repositories.Users
use somegram_backend.Gateway.Repositories.Users.{
  has_code, get_user_by_token, get_user_by_reset_password_code, get_user_by_email,
  get_user_by_username, create_not_confirmed_user, remove_user_by_id, cascade, new_user,
  new_confirmation, confirm_user, confirmed, get_user_by_google_sub,
  get_user_by_email_with_google_info,
}
use somegram_backend.Gateway.Repositories.Codes.{
  remove_confirmation_by_token, remove_reset_password_by_code, add_google_info_to_user,
}
use somegram_backend.Gateway.Repositories.Devices.{
  delete_all_sessions_for_user, get_devices_by_user_id, delete_sessions_by_id, create_session,
  get_device_by_id, update_last_active_date, renew_session,
}
use somegram_backend.Gateway.Auth.Providers
use somegram_backend.Gateway.Auth.Providers.{
  login_by_google, profile_sign_in, by_email, signed_in, google_user, google_account,
  confirm_if_needed,
}
use somegram_backend.Gateway.Auth.Registration.{
  confirm_found, handle_confirm, registration, registration_confirmation, register, handle_user,
  created_dto, remove_user, execute_transaction,
}
use somegram_backend.Gateway.Auth.Passwords.{
  reset_found, handle_update_password, restore_password_confirmation,
}
use somegram_backend.Gateway.Auth.Sessions.{
  terminate_others, terminate_ids, login, login_found, login_with, renew_tokens, renew_found,
  terminate_devices_exclude_current,
}
use somegram_backend.Gateway.Auth.Service.{
  Answer, generate_uniq_user_name, found, compare_pass, start_session, generate_device_id,
  tokens_for, generate_access_token, generate_refresh_token, verify_refresh_token, device_id_of,
  generate_hash, confirmation_token,
}
use somegram_backend.Gateway.Auth.Names.{generate_uniq_user_name_bounds}
use somegram_backend.Gateway.UserEntity
use somegram_backend.Gateway.UserEntity.{registration_user_event, registration_success_event}
use somegram_backend.Gateway.Commands.{
  Command, registration_command, login_command, logout_command, google_command, succeeded, execute,
  run,
}
use somegram_backend.Gateway.Logic.{Runs}
use somegram_backend.Gateway.Accounts.Steps.{Taken, execute-Refines}
use somegram_backend.Gateway.Accounts.Invariant.{IsSound, HasConfirmed}
use somegram_backend.Gateway.Accounts.Invariant.Kept.{run-IsSound}
use somegram_backend.Gateway.Accounts.Lasting.{Lasts}
use somegram_backend.Gateway.Accounts.Lasting.Kept.{run-Lasts}
use somegram_backend.Gateway.Accounts.Emails.{EmailsApart, registration-EmailsApart}
use somegram_backend.Gateway.Accounts.Spent.{
  Refuses, registration_confirmation-IsSpent, restore_password_confirmation-SignsOut,
}
use somegram_backend.Gateway.Auth.Guards.{validate_refresh}
use somegram_backend.Gateway.Logic.Calls.{Yields}
use somegram_backend.Gateway.Accounts.Rotation.{renew_tokens-Rotates}
use somegram_backend.Gateway.Accounts.Alone.{Left, terminate_others-Left}
use somegram_backend.Gateway.Accounts.Journey.Entering.{Succeeds}
use somegram_backend.Gateway.Accounts.Journey.Arriving.{registration-confirmation-login}
use somegram_backend.Gateway.Tests.Sample.{sample, sample_laws, sample-Steady, no_rows, at_start}

abbrev pub user : String → String → String → Bool → User
user id name email is_confirmed = record {
  id = id;
  username = name;
  email = email;
  hash_password = some "#secret";
  created_at = 900;
  updated_at = none;
  is_confirmed = is_confirmed;
  first_name = none;
  last_name = none;
  date_of_birth = none;
  about = none;
  city = none;
  country = none;
  account_type = personal;
  subscription_expire_at = none;
  is_deleted = false;
}

abbrev pub anna : User
anna = user "1" "anna" "anna@mail.com" true

abbrev pub bob : User
bob = user "2" "bob" "bob@mail.com" false

abbrev pub session : String → Session
session device_id = record {
  user_id = "1";
  ip = "::1";
  device_id = device_id;
  last_active_date = 900;
  title = "Mac";
}

abbrev pub two_users : State
two_users = record {
  db = record no_rows {
    users = anna ∷ bob ∷ [];
    confirmations =
        record { user_id = "2"; token = "t2"; expired_at = 1200; created_at = 900 } ∷ [];
    reset_codes = record { user_id = "1"; code = "c1"; expired_at = 1200; created_at = 900 } ∷ [];
    sessions = session "d1" ∷ session "d2" ∷ [];
  };
  published = [];
}

abbrev pub bob_again : RegistrationBodyInputDto
bob_again = record { username = "bob"; email = "bob@mail.com"; password = "other"; html = "" }

abbrev visit : List Command
visit =
    login_command "anna@mail.com" "secret" "Mac" "::1"
    ∷ registration_command bob_again
    ∷ logout_command "d1"
    ∷ []

abbrev pub in_world : State → World
in_world s = record { state = s; calls = 0 }

login_succeeds :
    (execute sample (login_command "anna@mail.com" "secret" "Mac" "::1") (in_world two_users)).0
    ≡ ok true
unfolding sample execute succeeded ◌>>=◌ pure attempt branch query call read change found login
    login_found login_with get_user_by_email compare_pass start_session generate_device_id
    tokens_for generate_access_token generate_refresh_token verify_refresh_token create_session
    device_id_of
login_succeeds = refl

-- Two accounts, neither confirmed; a third registers with the e-mail of the one and the name of the
-- other. The other makes room, and the e-mail is then that of two accounts.
abbrev carl : User
carl = user "3" "carl" "carl@mail.com" false

abbrev dora : User
dora = user "4" "dora" "dora@mail.com" false

abbrev two_open : State
two_open = record { db = record no_rows { users = carl ∷ dora ∷ [] }; published = [] }

abbrev both_taken : RegistrationBodyInputDto
both_taken = record { username = "dora"; email = "carl@mail.com"; password = "p"; html = "" }

one_email_twice :
    map (λ u. u.email) (registration sample both_taken (in_world two_open)).1.state.db.users
    ≡ "carl@mail.com" ∷ "carl@mail.com" ∷ []
unfolding sample ◌>>=◌ pure attempt branch query call read change publish transactional registration
    register handle_user created_dto remove_user execute_transaction get_user_by_email
    get_user_by_username create_not_confirmed_user remove_user_by_id cascade new_user
    new_confirmation generate_hash confirmation_token without_dashes registration_user_event
one_email_twice = refl

-- Whoever registers an e-mail of another keeps a password to the account, once its owner signs in
-- with Google and so confirms it.
abbrev profile : GoogleProfile
profile = record { google_id = "g"; google_email = "bob@mail.com"; google_email_verified = true }

stranger_signs_in :
    (run sample (google_command profile "::1" "Mac" ∷ []) (in_world two_users)).1.state.db.users
    ≡ anna ∷ user "2" "bob" "bob@mail.com" true ∷ []
unfolding sample run execute succeeded ◌>>=◌ pure attempt branch query call read change publish
    transactional login_by_google profile_sign_in by_email signed_in Providers.handle_user
    google_user google_account confirm_if_needed confirm_user confirmed add_google_info_to_user
    get_user_by_google_sub get_user_by_email_with_google_info start_session generate_device_id
    tokens_for generate_access_token generate_refresh_token verify_refresh_token create_session
    device_id_of registration_success_event
stranger_signs_in = refl

execute-Refines_example :
    Runs two_users
      (Taken sample (registration_command bob_again) two_users)
      (λ _. ⊥)
      (execute sample (registration_command bob_again))
execute-Refines_example = execute-Refines sample_laws (registration_command bob_again) two_users

of_anna :
    (x : Session)
    → Occurs x (session "d1" ∷ session "d2" ∷ [])
    → HasConfirmed (anna ∷ bob ∷ []) x.user_id
of_anna x (inl e) = (anna, inl refl, sym (ap (λ y. y.user_id) e), refl)
of_anna x (inr (inl e)) = (anna, inl refl, sym (ap (λ y. y.user_id) e), refl)
of_anna x (inr (inr h)) = absurd h

run-IsSound_example : Runs two_users (λ _ t. IsSound t) (λ _. ⊥) (run sample visit)
run-IsSound_example =
    run-IsSound sample_laws visit two_users
      (record { sessions = of_anna; google = λ x h. absurd h; github = λ x h. absurd h })

run-Lasts_example : Runs two_users (λ _ t. Lasts "1" "anna@mail.com" t) (λ _. ⊥) (run sample visit)
run-Lasts_example = run-Lasts sample_laws "1" "anna@mail.com" visit two_users (record {
  apart = ((refl, tt), (tt, tt));
  user = anna;
  is_user = inl refl;
  is_id = refl;
  is_email = refl;
  is_confirmed = refl;
})

one_holder :
    (u v : User)
    → Occurs u (anna ∷ bob ∷ [])
    → Occurs v (anna ∷ bob ∷ [])
    → u.email ≡ "bob@mail.com"
    → v.username ≡ "bob"
    → u.id ≡ v.id
one_holder u v (inl e) k m n =
    absurd (differ→ne "anna@mail.com" "bob@mail.com" refl (sym (ap (λ x. x.email) e) ∙ m))
one_holder u v (inr (inl e)) (inl q) m n =
    absurd (differ→ne "anna" "bob" refl (sym (ap (λ x. x.username) q) ∙ n))
one_holder u v (inr (inl e)) (inr (inl q)) m n = ap (λ x. x.id) (e ∙ sym q)
one_holder u v (inr (inl e)) (inr (inr h)) m n = absurd h
one_holder u v (inr (inr h)) k m n = absurd h

registration-EmailsApart_example :
    Runs two_users (λ _ t. EmailsApart t) (λ _. ⊥) (registration sample bob_again)
registration-EmailsApart_example =
    registration-EmailsApart sample_laws bob_again two_users ((refl, tt), (tt, tt)) one_holder
