-- ===== src/Gateway/Accounts/SignIn.antt =====
-- Sign-in, the renewal of the tokens and the end of sessions as steps on the tables.
use somegram_backend.Prelude.{
  inr, subst, ℕ, ◌*◌, ◌≡◌, refl, String, Bool, true, false, ◌∷◌, Option, none, some, All, Occurs,
  find, arith,
}
use somegram_backend.Gateway.Text.{same, is_blank}
use somegram_backend.Gateway.Types.{RefreshPayload, User, TokensPair}
use somegram_backend.Gateway.World.{Env, State}
use somegram_backend.Gateway.Repositories.Users.{has_email, with_ban, is_ban_of, get_user_by_email}
use somegram_backend.Gateway.Repositories.Devices.{same_device, put_sessions, create_session}
use somegram_backend.Gateway.Auth.Service.{
  device_id_of, compare_pass, generate_device_id, generate_access_token, generate_refresh_token,
  verify_refresh_token, tokens_for, start_session,
}
use somegram_backend.Gateway.Auth.Sessions.{filled, login_with, login_found, login}
use somegram_backend.Gateway.Database.{DbLaws}
use somegram_backend.Gateway.Logic.{
  Runs, Reads, >>=-Runs, quiet-Runs, pure-Runs, branch-Runs, found-Runs,
}
use somegram_backend.Gateway.Logic.Calls.{Yields, call-Runs}
use somegram_backend.Gateway.Logic.Promises.{
  Implements, attempt-Implements, refuse-Meets, succeed-Runs, reading-Runs,
}
use somegram_backend.Gateway.Accounts.Rows.{
  with_table, create-Runs, find-Meets, is_some-false, not-false,
}

-- New tokens of a user for a device, and the date of the refresh token.
pub record Issued (E : Env) (user_id device_id : String) (tokens : TokensPair) (date : ℕ)
    : Type 0 where
  pub has_access : Yields (λ n. E.sign_access n user_id) tokens.access_token
  pub signed : Yields (λ n. E.sign_refresh n user_id device_id) tokens.refresh_token
  pub payload : RefreshPayload
  pub accepted : Yields (λ n. E.verify_refresh n tokens.refresh_token) payload
  pub is_date : date ≡ payload.iat * 1000

-- The user gets a session on a new device.
pub record Started (E : Env) (user_id ip user_agent : String) (tokens : TokensPair) (s t : State)
    : Type 0 where
  pub uuid : String
  pub date : ℕ
  pub issued : Issued E user_id (device_id_of uuid user_id) tokens date
  pub new_device : All (λ d. same (device_id_of uuid user_id) d.device_id ≡ false) s.db.sessions
  pub done :
      t
      ≡ with_table put_sessions
          (record {
            user_id = user_id;
            ip = ip;
            device_id = device_id_of uuid user_id;
            last_active_date = date;
            title = user_agent;
          }
            ∷ s.db.sessions)
          s

-- A user with a password that matches has signed in.
pub record SignedIn (E : Env) (email password user_agent ip : String) (s t : State) : Type 0 where
  pub user : User
  pub hash_password : String
  pub is_user : Occurs user s.db.users
  pub is_theirs : has_email email user ≡ true
  pub is_allowed : find (is_ban_of user.id) s.db.bans ≡ none
  pub is_confirmed : user.is_confirmed ≡ true
  pub has_password : user.hash_password ≡ some hash_password
  pub matches : Yields (λ n. E.compare n password hash_password) true
  pub tokens : TokensPair
  pub started : Started E user.id ip user_agent tokens s t

module _ {E : Env} where
  pub tokens_for-Runs :
      {s : State} {T : State → Type 0} (user_id device_id : String)
      → T s
      → Runs s
          (Reads s (λ r. Issued E user_id device_id r.0 r.1))
          T
          (tokens_for E user_id device_id)
  unfolding tokens_for generate_access_token generate_refresh_token verify_refresh_token
  tokens_for-Runs user_id device_id h = quiet-Runs (call-Runs _ h) λ access has_access.
      quiet-Runs (call-Runs _ h) λ refresh signed. quiet-Runs (call-Runs _ h) λ payload accepted.
        pure-Runs _ (
          refl,
          record {
            has_access = has_access;
            signed = signed;
            payload = payload;
            accepted = accepted;
            is_date = refl;
          },
        )

module _ {E : Env} (L : DbLaws E) where
  pub start_session-Runs :
      {s : State} {T : State → Type 0} (user_id user_agent ip : String)
      → T s
      → Runs s
          (λ tokens. Started E user_id ip user_agent tokens s)
          T
          (start_session E user_id user_agent ip)
  unfolding start_session generate_device_id create_session
  start_session-Runs {s} user_id user_agent ip h =
      quiet-Runs {R = λ device_id. (n : ℕ) × (device_id ≡ device_id_of (E.random_uuid n) user_id)}
        (reading-Runs _ λ n. pure-Runs _ (refl, (n, refl)))
        λ device_id (n, e). quiet-Runs (tokens_for-Runs user_id device_id h) λ issued is_issued.
          >>=-Runs (create-Runs L put_sessions (λ d. d.sessions) same_device _ h)
            λ _ t (done, new_device). pure-Runs _ (record {
              uuid = E.random_uuid n;
              date = issued.1;
              issued = subst (λ x. Issued E user_id x issued.0 issued.1) e is_issued;
              new_device =
                  subst (λ x. All (λ d. same x d.device_id ≡ false) s.db.sessions) e new_device;
              done =
                  subst
                    (λ x.
                      t
                      ≡ with_table put_sessions
                          (record {
                            user_id = user_id;
                            ip = ip;
                            device_id = x;
                            last_active_date = issued.1;
                            title = user_agent;
                          }
                            ∷ s.db.sessions)
                          s)
                    e done;
            })

  filled-some : (o : Option String) (h : String) → filled o ≡ some h → o ≡ some h
  filled-some none h e = absurd (ground arith)
  filled-some (some x) h e = on_blank (is_blank x) refl
    where
      on_blank : (b : Bool) → is_blank x ≡ b → some x ≡ some h
      on_blank true q = absurd (ground arith)
      on_blank false q = ground arith

  -- A login that answers success has been given the password of a confirmed user with the e-mail
  -- who is not banned, and has started a session on a new device with tokens for it; else it has
  -- changed nothing. It always answers.
  pub login-Implements :
      (email password user_agent ip : String)
      → Implements (SignedIn E email password user_agent ip) (login E email password user_agent ip)
  unfolding login login_found login_with get_user_by_email compare_pass
  login-Implements email password user_agent ip = attempt-Implements _ λ s.
      find-Meets L (λ _. has_email email) with_ban (λ d. d.users) _ _ refl
        λ u here has.
          branch-Runs _ (λ _. refuse-Meets _ refl)
            λ free.
              branch-Runs _ (λ _. refuse-Meets _ refl)
                λ is_confirmed.
                  found-Runs _ (filled u.hash_password) (λ _. inr (refl, refl))
                    λ hash e. quiet-Runs (call-Runs _ refl) λ verified matches.
                      branch-Runs _ (λ _. refuse-Meets _ refl)
                        λ is_verified.
                          >>=-Runs (start_session-Runs u.id user_agent ip refl) λ tokens t started.
                            succeed-Runs _ refl (record {
                              user = u;
                              hash_password = hash;
                              is_user = here;
                              is_theirs = has;
                              is_allowed = is_some-false (find (is_ban_of u.id) s.db.bans) free;
                              is_confirmed = not-false _ is_confirmed;
                              has_password = filled-some u.hash_password hash e;
                              matches =
                                  subst (Yields (λ n. E.compare n password hash))
                                    (not-false _ is_verified) matches;
                              tokens = tokens;
                              started = started;
                            })
