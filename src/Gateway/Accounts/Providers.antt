-- ===== src/Gateway/Accounts/Providers.antt =====
-- Sign-in with Google and with GitHub as steps on the tables.
pub mod Joining
pub mod Profiles
use somegram_backend.Prelude.{
  inl, inr, subst, sym, ℕ, ◌≡◌, refl, ◌∙◌, ap, String, Bool, true, false, not, ◌||◌, List, ◌∷◌,
  Option, none, some, All, Occurs, find, update_where, arith,
}
use somegram_backend.Effects.{◌>>=◌, ◌>>◌, pure, attempt, branch}
use somegram_backend.Gateway.Text.{same}
use somegram_backend.Gateway.Types.{
  User, UserGoogleAccount, UserGithubAccount, GoogleProfile, GithubProfile, TokensPair, Db,
}
use somegram_backend.Gateway.UserEntity.{UserEntity, registration_success_event}
use somegram_backend.Gateway.World.{Env, State, Service}
use somegram_backend.Gateway.Repositories.Users.{
  has_id, has_email, has_sub, has_github_id, with_ban, is_ban_of, is_google_of, is_github_of,
  same_id, put_users, new_user, confirmed, get_user_by_google_sub,
  get_user_by_email_with_google_info, get_user_by_github_id, get_user_by_email_with_github_info,
  create_user_by_google, create_user_by_github, confirm_user,
}
use somegram_backend.Gateway.Repositories.Codes.{
  same_google, same_github, put_google, put_github, add_google_info_to_user,
  add_github_info_to_user,
}
use somegram_backend.Gateway.Auth.Service.{Answer, is_some, generate_uniq_user_name, start_session}
use somegram_backend.Gateway.Auth.Providers.{
  google_account, github_account, confirm_if_needed, google_user, github_user, handle_user,
  known_user, signed_in, by_email, profile_sign_in, login_by_google, auth_with_github,
}
use somegram_backend.Gateway.Database.{DbLaws}
use somegram_backend.Gateway.Logic.{
  Runs, Same, Reads, >>=-Runs, quiet-Runs, pure-Runs, branch-Runs, attempt-Runs, found-Runs,
  weaken-Runs,
}
use somegram_backend.Gateway.Logic.Calls.{
  Answers, Yields, Puts, query-Runs, call-Runs, read-Runs, required-Runs, change-Runs, with_event,
  publish-Runs, transactional-Runs,
}
use somegram_backend.Gateway.Logic.Promises.{
  Promises, Meets, Implements, is_success, attempt-Implements, refuse-Meets, succeed-Runs,
  weaken-Meets, reading-Runs,
}
use somegram_backend.Gateway.Accounts.Rows.{
  Sees, entity-Runs, with_table, create-Runs, update-Runs, delete-Runs, delete_many-Runs,
  find-Meets, is_some-false, not-false,
}
use somegram_backend.Gateway.Accounts.SignIn.{Started, start_session-Runs}

-- The users once the one with the id is confirmed, if it was not yet.
abbrev pub confirmed_if : Bool → String → List User → List User
confirmed_if true id l = l
confirmed_if false id l = update_where (has_id id) confirmed l

abbrev pub linked_user : (String → Db → Db) → User → State → State
linked_user link u s = record s {
  db = link u.id (put_users s.db (confirmed_if u.is_confirmed u.id s.db.users));
}

abbrev pub linked_new : (String → Db → Db) → User → State → State
linked_new link u s = record s { db = link u.id (put_users s.db (u ∷ s.db.users)) }

-- The user who signs in: the one given, or a new one, with the account of the provider.
abbrev pub Joined :
    Env → (String → Db → Db) → String → Option String → State → Option User → User → State → Type 0
Joined E link email first_name s (some u) v t = (v ≡ u) × (t ≡ linked_user link u s)
Joined E link email first_name s none v t =
    (id : String) × (uuid : String) × (date : ℕ) × (v
      ≡ new_user id (generate_uniq_user_name uuid email) email none date true first_name)
    × All (λ u. same id u.id ≡ false) s.db.users
    × (t ≡ linked_new link v s)

-- Sign-in with a provider: of the user who has the account, or of one with the e-mail or a new one,
-- who gets the account.
pub data ProviderSignIn (E : Env) (belongs : Db → User → Bool) (link : String → Db → Db)
    (email : String) (first_name : Option String) (user_agent ip : String) (s t : State)
    : Type 0 where
  known :
      (u : User) (tokens : TokensPair)
      → Occurs u s.db.users
      → belongs s.db u ≡ true
      → find (is_ban_of u.id) s.db.bans ≡ none
      → Started E u.id ip user_agent tokens s t
      → ProviderSignIn E belongs link email first_name user_agent ip s t
  linked :
      (u : User) (tokens : TokensPair) (v : State)
      → Occurs u s.db.users
      → has_email email u ≡ true
      → find (is_ban_of u.id) s.db.bans ≡ none
      → Started E u.id ip user_agent tokens (linked_user link u s) v
      → t ≡ with_event (registration_success_event u) v
      → ProviderSignIn E belongs link email first_name user_agent ip s t
  created :
      (id uuid : String) (date : ℕ) (tokens : TokensPair) (v : State)
      → All (λ u. has_email email u ≡ false) s.db.users
      → All (λ u. same id u.id ≡ false) s.db.users
      → (u : User)
      → u ≡ new_user id (generate_uniq_user_name uuid email) email none date true first_name
      → Started E u.id ip user_agent tokens (linked_new link u s) v
      → t ≡ with_event (registration_success_event u) v
      → ProviderSignIn E belongs link email first_name user_agent ip s t

abbrev pub google_link : GoogleProfile → String → Db → Db
google_link p id d = put_google d (google_account p id ∷ d.google_accounts)

abbrev pub github_link : GithubProfile → String → Db → Db
github_link p id d = put_github d (github_account p id ∷ d.github_accounts)
