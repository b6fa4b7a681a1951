-- ===== src/Gateway/Accounts/Recovery.antt =====
-- The code that restores a password, and the new password, as steps on the tables.
use somegram_backend.Prelude.{
  ℕ, ◌+◌, ◌≡◌, ◌≤◌, refl, ◌∙◌, ap, String, true, ◌∷◌, Option, none, some, Occurs, find, without,
  update_where, ltb→le,
}
use somegram_backend.Gateway.Types.{User, UserResetPassword, Db}
use somegram_backend.Gateway.UserEntity
use somegram_backend.Gateway.UserEntity.{UserEntity, password_recovery_event}
use somegram_backend.Gateway.World.{Env, State}
use somegram_backend.Gateway.Repositories.Users
use somegram_backend.Gateway.Repositories.Users.{
  has_id, has_email, has_code, with_ban, is_ban_of, is_code_of, is_session_of, put_users,
  with_password, get_user_by_email, get_user_by_reset_password_code,
}
use somegram_backend.Gateway.Repositories.Codes.{
  is_code, put_reset_codes, same_reset_code, update_reset_password, create_reset_password,
  remove_reset_password_by_code, update_reset_password_by_code, get_reset_password_by_user_id,
}
use somegram_backend.Gateway.Repositories.Devices.{put_sessions, delete_all_sessions_for_user}
use somegram_backend.Gateway.Auth.Service.{confirmation_token, generate_hash}
use somegram_backend.Gateway.Auth.Passwords.{
  store_code, restore_found, restore_password, handle_update_password, reset_found,
  restore_password_confirmation,
}
use somegram_backend.Gateway.Database.{DbLaws, Seen}
use somegram_backend.Gateway.Logic.{
  Runs, Same, Reads, >>=-Runs, quiet-Runs, branch-Runs, weaken-Runs,
}
use somegram_backend.Gateway.Logic.Calls.{
  Yields, query-Runs, call-Runs, required-Runs, with_event, publish-Runs, transactional-Runs,
}
use somegram_backend.Gateway.Logic.Promises.{
  Implements, attempt-Implements, refuse-Meets, succeed-Runs, reading-Runs,
}
use somegram_backend.Gateway.Accounts.Rows.{
  with_table, create-Runs, update-Runs, delete-Runs, delete_many-Runs, find-Meets, is_some-false,
}

-- The code of a user is replaced, or entered as its first.
abbrev pub code_stored : String → String → ℕ → ℕ → Option UserResetPassword → Db → Db
code_stored id code date expired_at (some last) d =
    put_reset_codes d
      (update_where (is_code last.code) (update_reset_password code expired_at) d.reset_codes)
code_stored id code date expired_at none d = put_reset_codes d (
    record { user_id = id; code = code; expired_at = expired_at; created_at = date }
    ∷ d.reset_codes)

-- A user who is not banned gets a code, which is sent.
pub record Requested (E : Env) (email html : String) (s t : State) : Type 0 where
  pub user : User
  pub is_user : Occurs user s.db.users
  pub is_theirs : has_email email user ≡ true
  pub is_allowed : find (is_ban_of user.id) s.db.bans ≡ none
  pub last : Option UserResetPassword
  pub sees_last : Seen (is_code_of user.id) s.db.reset_codes last
  pub date : ℕ
  pub uuid : String
  pub done :
      let code = confirmation_token uuid in
      let expired_at = date + E.restore_password_code_expire_after in
      t
      ≡ with_event
          (password_recovery_event user code html)
          (record s { db = code_stored user.id code date expired_at last s.db })

abbrev pub password_reset : String → String → String → Db → Db
password_reset id code hash d = record d {
  users = update_where (has_id id) (with_password (some hash)) d.users;
  reset_codes = without (is_code code) d.reset_codes;
  sessions = without (is_session_of id) d.sessions;
}

-- The user of a code that has not expired gets the hash of the new password; the code is spent and
-- every session of the user is gone.
pub record Reset (E : Env) (code password : String) (s t : State) : Type 0 where
  pub user : User
  pub reset_code : UserResetPassword
  pub is_user : Occurs user s.db.users
  pub is_own : find (is_code_of user.id) s.db.reset_codes ≡ some reset_code
  pub carries : has_code s.db code user ≡ true
  pub is_allowed : find (is_ban_of user.id) s.db.bans ≡ none
  pub call : ℕ
  pub in_time : E.clock call ≤ reset_code.expired_at
  pub hash_password : String
  pub hashed : Yields (λ n. E.hash n password) hash_password
  pub done : t ≡ record s { db = password_reset user.id code hash_password s.db }

module _ {E : Env} (L : DbLaws E) where
  store_code-Runs :
      {s : State} (id code : String) (date expired_at : ℕ) (last : Option UserResetPassword)
      → Runs s
          (λ _ t. t ≡ record s { db = code_stored id code date expired_at last s.db })
          (Same s)
          (store_code E id code date expired_at last)
  unfolding store_code create_reset_password update_reset_password_by_code update_reset_password
  store_code-Runs id code date expired_at (some last) =
      update-Runs L put_reset_codes (λ d. d.reset_codes) (is_code last.code) _ refl
  store_code-Runs id code date expired_at none =
      weaken-Runs (create-Runs L put_reset_codes (λ d. d.reset_codes) same_reset_code _ refl)
        (λ _ t r. r.0) λ t e. e

  last_code-Runs :
      {s : State} (id : String)
      → Runs s
          (Reads s (Seen (is_code_of id) s.db.reset_codes))
          (Same s)
          (get_reset_password_by_user_id E id)
  unfolding get_reset_password_by_user_id
  last_code-Runs id =
      weaken-Runs (query-Runs _ refl) (λ o t r. (r.0, L.find_first_rows r.1.0 _ _ o r.1.1)) λ t e. e

  -- A request that answers success has stored a code for a user with the e-mail who is not banned,
  -- in the place of the code that the user had, and has sent it; else it has changed nothing. It
  -- always answers.
  pub restore_password-Implements :
      (email html : String) → Implements (Requested E email html) (restore_password E email html)
  unfolding restore_password restore_found get_user_by_email
  restore_password-Implements email html = attempt-Implements _ λ s. reading-Runs _ λ n.
      find-Meets L (λ _. has_email email) with_ban (λ d. d.users) _ _ refl
        λ u here has.
          branch-Runs _ (λ _. refuse-Meets _ refl)
            λ free. quiet-Runs (last_code-Runs u.id) λ last seen. reading-Runs _ λ i.
              >>=-Runs (store_code-Runs u.id _ _ _ last) λ _ t stored.
                >>=-Runs (publish-Runs _) λ _ v sent. succeed-Runs _ refl (record {
                  user = u;
                  is_user = here;
                  is_theirs = has;
                  is_allowed = is_some-false (find (is_ban_of u.id) s.db.bans) free;
                  last = last;
                  sees_last = seen;
                  date = E.clock n;
                  uuid = E.random_uuid i;
                  done = sent ∙ ap (with_event _) stored;
                })

  handle_update-Runs :
      {s : State} (u : User) (code hash : String)
      → Runs s
          (λ _ t. t ≡ record s { db = password_reset u.id code hash s.db })
          (Same s)
          (handle_update_password E (UserEntity.update_password u hash) code)
  unfolding handle_update_password UserEntity.update_password Users.update_password
      remove_reset_password_by_code delete_all_sessions_for_user
  handle_update-Runs {s} u code hash = transactional-Runs L refl (
      >>=-Runs
        (update-Runs L put_users (λ d. d.users) (has_id u.id) (with_password (some hash)) refl)
        λ _ t e.
          >>=-Runs
            (delete-Runs L put_reset_codes (λ d. d.reset_codes) (is_code code)
              (ap (λ t. t.published) e))
            λ _ v r.
              weaken-Runs
                (delete_many-Runs L {T = λ t. t.published ≡ s.published} put_sessions
                  (λ d. d.sessions) (is_session_of u.id)
                  (ap (λ t. t.published) r.0 ∙ ap (λ t. t.published) e))
                (λ _ x q. q ∙ ap without_sessions (r.0 ∙ ap without_code e)) λ x k. k)
    where
      without_sessions : State → State
      without_sessions t = with_table put_sessions (without (is_session_of u.id) t.db.sessions) t

      without_code : State → State
      without_code t = with_table put_reset_codes (without (is_code code) t.db.reset_codes) t

  -- A new password that is answered success has been given to the user of the code, who is not
  -- banned, before the code had expired; the code is spent and the user has no session left. Else
  -- nothing has changed. It always answers.
  pub restore_password_confirmation-Implements :
      (code password : String)
      → Implements (Reset E code password) (restore_password_confirmation E code password)
  unfolding restore_password_confirmation reset_found get_user_by_reset_password_code generate_hash
  restore_password_confirmation-Implements code password = attempt-Implements _ λ s.
      reading-Runs _ λ n.
        find-Meets L (λ d. has_code d code)
          (λ d u. (with_ban d u, find (is_code_of u.id) d.reset_codes)) (λ d. d.users) _ _ refl
          λ u here has.
            branch-Runs _ (λ _. refuse-Meets _ refl)
              λ free.
                quiet-Runs (required-Runs (find (is_code_of u.id) s.db.reset_codes) refl)
                  λ reset_code own.
                    branch-Runs _ (λ _. refuse-Meets _ refl)
                      λ valid. quiet-Runs (call-Runs _ refl) λ hash hashed.
                        >>=-Runs (handle_update-Runs u code hash) λ _ t done.
                          succeed-Runs _ refl (record {
                            user = u;
                            reset_code = reset_code;
                            is_user = here;
                            is_own = own;
                            carries = has;
                            is_allowed = is_some-false (find (is_ban_of u.id) s.db.bans) free;
                            call = n;
                            in_time = ltb→le _ _ valid;
                            hash_password = hash;
                            hashed = hashed;
                            done = done;
                          })
