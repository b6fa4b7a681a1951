-- ===== src/Gateway/Repositories/Users.antt =====
-- users/infrastructure/users.repository.ts: what sign-up, sign-in and the codes use of it. The
-- conditions are read off the `where` clauses; a relation of `include` is the row that holds the
-- id of the user.
use somegram_backend.Prelude.{
  ℕ, String, Bool, true, false, ◌||◌, List, Option, none, some, find, without,
}
use somegram_backend.Effects.{◌>>=◌, ◌>>◌, pure}
use somegram_backend.Gateway.Text.{same}
use somegram_backend.Gateway.Types.{
  personal, User, UserBanInfo, UserConfirmation, UserResetPassword, Session, UserGoogleAccount,
  UserGithubAccount, UserFollow, Db, UserCreatedDto, UserCreatedByGoogleDto, UserCreatedByGithubDto,
}
use somegram_backend.Gateway.UserEntity.{UserEntity}
use somegram_backend.Gateway.World.{Env, Service, query, change, read, transactional}

abbrev pub has_id : String → User → Bool
has_id id u = same u.id id

abbrev pub has_email : String → User → Bool
has_email email u = same u.email email

abbrev pub has_username : String → User → Bool
has_username username u = same u.username username

abbrev pub is_ban_of : String → UserBanInfo → Bool
is_ban_of id b = same b.user_id id

abbrev pub is_confirmation_of : String → UserConfirmation → Bool
is_confirmation_of id c = same c.user_id id

abbrev pub is_code_of : String → UserResetPassword → Bool
is_code_of id c = same c.user_id id

abbrev pub is_session_of : String → Session → Bool
is_session_of id s = same s.user_id id

abbrev pub is_google_of : String → UserGoogleAccount → Bool
is_google_of id g = same g.user_id id

abbrev pub is_github_of : String → UserGithubAccount → Bool
is_github_of id g = same g.user_id id

abbrev pub is_some_with : {A : Type 0} → (A → Bool) → Option A → Bool
is_some_with p none = false
is_some_with p (some a) = p a

-- The conditions on a related row.
abbrev pub has_token : Db → String → User → Bool
has_token d token u =
    is_some_with (λ c. same c.token token) (find (is_confirmation_of u.id) d.confirmations)

abbrev pub has_code : Db → String → User → Bool
has_code d code u = is_some_with (λ c. same c.code code) (find (is_code_of u.id) d.reset_codes)

abbrev pub has_sub : Db → String → User → Bool
has_sub d sub u = is_some_with (λ g. same g.sub sub) (find (is_google_of u.id) d.google_accounts)

abbrev pub has_github_id : Db → String → User → Bool
has_github_id d github_id u =
    is_some_with (λ g. same g.github_id github_id) (find (is_github_of u.id) d.github_accounts)

-- `new UserEntity(user, user.userBanInfo)` and `new UserEntity(user)`
abbrev pub with_ban : Db → User → UserEntity
with_ban d u = record { user = u; user_ban_info = find (is_ban_of u.id) d.bans }

abbrev pub alone : User → UserEntity
alone u = record { user = u; user_ban_info = none }

abbrev pub entity : {A B : Type 0} → (A → B) → Option (Option A) → Option (Option B)
entity f none = none
entity f (some none) = some none
entity f (some (some a)) = some (some (f a))

-- A new row, with the defaults of the schema.
unfoldable pub new_user : String → String → String → Option String → ℕ → Bool → Option String → User
new_user id username email hash_password created_at is_confirmed first_name = record {
  id = id;
  username = username;
  email = email;
  hash_password = hash_password;
  created_at = created_at;
  updated_at = none;
  is_confirmed = is_confirmed;
  first_name = first_name;
  last_name = none;
  date_of_birth = none;
  about = none;
  city = none;
  country = none;
  account_type = personal;
  subscription_expire_at = none;
  is_deleted = false;
}

unfoldable pub new_confirmation : String → UserCreatedDto → UserConfirmation
new_confirmation id dto = record {
  user_id = id;
  token = dto.confirmation_token;
  expired_at = dto.confirmation_token_expires_at;
  created_at = dto.created_at;
}

-- The unique columns of `User` and `UserConfirmationToken`.
abbrev pub same_id : User → User → Bool
same_id u v = same u.id v.id

abbrev pub same_confirmation : UserConfirmation → UserConfirmation → Bool
same_confirmation b c = elim (same b.user_id c.user_id) [
  | true ↦ true
  | false ↦ same b.token c.token
]

abbrev pub put_users : Db → List User → Db
put_users d l = record d { users = l }

abbrev pub put_confirmations : Db → List UserConfirmation → Db
put_confirmations d l = record d { confirmations = l }

-- `onDelete: Cascade` of the rows that belong to a user.
unfoldable pub cascade : String → Db → List User → Db
cascade id d l = record {
  users = l;
  bans = without (is_ban_of id) d.bans;
  confirmations = without (is_confirmation_of id) d.confirmations;
  reset_codes = without (is_code_of id) d.reset_codes;
  sessions = without (is_session_of id) d.sessions;
  google_accounts = without (is_google_of id) d.google_accounts;
  github_accounts = without (is_github_of id) d.github_accounts;
  follows = d.follows;
}

abbrev pub is_follow_of : String → UserFollow → Bool
is_follow_of id f = same f.follower_id id || same f.followee_id id

-- `ON DELETE RESTRICT` of the follows: no deletion while a row refers to the user.
abbrev pub restrict : {A B : Type 0} → Option A → Option B → Option B
restrict none deleted = deleted
restrict (some a) deleted = none

unfoldable pub confirmed : User → User
confirmed u = record u { is_confirmed = true }

unfoldable pub with_password : Option String → User → User
with_password hash u = record u { hash_password = hash }

module _ (E : Env) where
  unfoldable pub get_user_by_email : String → Service (Option UserEntity)
  get_user_by_email email =
      query λ n d. entity (with_ban d) (E.find_first n (has_email email) d.users)

  unfoldable pub get_user_by_username : String → Service (Option UserEntity)
  get_user_by_username username =
      query λ n d. entity alone (E.find_first n (has_username username) d.users)

  unfoldable pub get_user_by_id : String → Service (Option UserEntity)
  get_user_by_id id = query λ n d. entity (with_ban d) (E.find_first n (has_id id) d.users)

  -- The user and its confirmation are one nested `create`; `id` is `@default(uuid())`.
  unfoldable pub create_not_confirmed_user : UserCreatedDto → Service User
  create_not_confirmed_user dto = do
    id ← read E.random_uuid
    let row =
        new_user id dto.username dto.email (some dto.hash_password) dto.created_at dto.is_confirmed
          none
    transactional E (do
      change put_users (λ n d. E.create n same_id row d.users)
      change put_confirmations
          (λ n d. E.create n same_confirmation (new_confirmation id dto) d.confirmations))
    pure row

  unfoldable pub create_user_by_google : UserCreatedByGoogleDto → Service User
  create_user_by_google dto = do
    id ← read E.random_uuid
    let row = new_user id dto.username dto.email none dto.created_at dto.is_confirmed none
    change put_users (λ n d. E.create n same_id row d.users)
    pure row

  unfoldable pub create_user_by_github : UserCreatedByGithubDto → Service User
  create_user_by_github dto = do
    id ← read E.random_uuid
    let row = new_user id dto.username dto.email none dto.created_at dto.is_confirmed dto.first_name
    change put_users (λ n d. E.create n same_id row d.users)
    pure row

  unfoldable pub update_password : User → Service (Unit {0})
  update_password u =
      change put_users (λ n d. E.update n (has_id u.id) (with_password u.hash_password) d.users)

  -- A notification of the user is a further row for which the call may reject.
  unfoldable pub remove_user_by_id : String → Service (Unit {0})
  remove_user_by_id id =
      change (cascade id)
        (λ n d. restrict (find (is_follow_of id) d.follows) (E.delete n (has_id id) d.users))

  unfoldable pub confirm_user : String → Service (Unit {0})
  confirm_user id = change put_users (λ n d. E.update n (has_id id) confirmed d.users)

  unfoldable pub get_user_by_token :
      String → Service (Option (UserEntity × Option UserConfirmation))
  get_user_by_token token = query λ n d.
      entity (λ u. (with_ban d u, find (is_confirmation_of u.id) d.confirmations))
        (E.find_first n (has_token d token) d.users)

  unfoldable pub get_user_by_reset_password_code :
      String → Service (Option (UserEntity × Option UserResetPassword))
  get_user_by_reset_password_code code = query λ n d.
      entity (λ u. (with_ban d u, find (is_code_of u.id) d.reset_codes))
        (E.find_first n (has_code d code) d.users)

  unfoldable pub get_user_by_google_sub : String → Service (Option UserEntity)
  get_user_by_google_sub sub =
      query λ n d. entity (with_ban d) (E.find_first n (has_sub d sub) d.users)

  unfoldable pub get_user_by_email_with_google_info :
      String → Service (Option (UserEntity × Option UserGoogleAccount))
  get_user_by_email_with_google_info email = query λ n d.
      entity (λ u. (with_ban d u, find (is_google_of u.id) d.google_accounts))
        (E.find_first n (has_email email) d.users)

  unfoldable pub get_user_by_github_id : String → Service (Option UserEntity)
  get_user_by_github_id github_id =
      query λ n d. entity (with_ban d) (E.find_first n (has_github_id d github_id) d.users)

  unfoldable pub get_user_by_email_with_github_info :
      String → Service (Option (UserEntity × Option UserGithubAccount))
  get_user_by_email_with_github_info email = query λ n d.
      entity (λ u. (with_ban d u, find (is_github_of u.id) d.github_accounts))
        (E.find_first n (has_email email) d.users)
