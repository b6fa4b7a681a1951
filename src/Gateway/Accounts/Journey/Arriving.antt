-- ===== src/Gateway/Accounts/Journey/Arriving.antt =====
-- The first login of an account that has just been confirmed, and the whole way to it.
use mathlib.Core.Bool.{false≢true}
use somegram_backend.Prelude.{
  ℕ, ◌≡◌, refl, sym, ap, subst, ◌∙◌, String, Bool, true, false, not, ◌∷◌, none, some, inl, inr, All,
  Occurs, find, All→Occurs, update_where, Occurs-update, Occurs-update⁻, changed_if, if◌then◌else◌,
  arith,
}
use somegram_backend.Gateway.Text.{same, is_blank, same→eq, eq→same}
use somegram_backend.Gateway.Types.{User, RegistrationBodyInputDto}
use somegram_backend.Gateway.UserEntity.{registration_user_event}
use somegram_backend.Gateway.World.{Env, State}
use somegram_backend.Gateway.Repositories.Users.{
  has_id, has_email, with_ban, is_ban_of, confirmed, get_user_by_email,
}
use somegram_backend.Gateway.Repositories.Devices.{same_device, put_sessions, create_session}
use somegram_backend.Gateway.Auth.Service.{
  Answer, found, is_some, device_id_of, compare_pass, generate_device_id, generate_access_token,
  generate_refresh_token, verify_refresh_token, tokens_for, start_session,
}
use somegram_backend.Gateway.Auth.Registration.{registration, registration_confirmation}
use somegram_backend.Gateway.Auth.Sessions.{denied, filled, login_with, login_found, login}
use somegram_backend.Gateway.Database.{DbLaws}
use somegram_backend.Gateway.Logic.{
  Runs, Reads, >>=-Runs, quiet-Runs, pure-Runs, branch-Runs, attempt-Runs, weaken-Runs,
}
use somegram_backend.Gateway.Logic.Calls.{Yields}
use somegram_backend.Gateway.Logic.Promises.{Promises, reading-Runs}
use somegram_backend.Gateway.Logic.Total.{both-Runs}
use somegram_backend.Gateway.Accounts.SignUp.{Registered, registration-Implements}
use somegram_backend.Gateway.Accounts.Confirming.{Confirmed, registration_confirmation-Implements}
use somegram_backend.Gateway.Accounts.Journey.Steady.{
  Steady, Sees-some, finds-Runs, creates-Runs, calls-Runs,
}
use somegram_backend.Gateway.Accounts.Journey.Entering.{IsFresh, Succeeds, registration-Succeeds}
use somegram_backend.Gateway.Accounts.Journey.Proving.{
  Newcomer, Registered-Newcomer, InTime, token_owner, newcomer_not_banned, confirmation-Succeeds,
}

-- A success is the step of the use case.
only_success :
    {C : Type 0} {s t : State} (S : State → Type 0) (a : Answer C)
    → Promises s S a t
    → Succeeds a t
    → S t
only_success S a (inl r) e = r.1
only_success S a (inr r) e = absurd (false≢true (sym r.0 ∙ e))

module _ {E : Env} (L : DbLaws E) (S : Steady E) where
  tokens-Total :
      {s : State} {U : State → Type 0} (user_id device_id : String)
      → Runs s (Reads s (λ _. Unit {0})) U (tokens_for E user_id device_id)
  unfolding tokens_for generate_access_token generate_refresh_token verify_refresh_token
  tokens-Total user_id device_id =
      quiet-Runs (calls-Runs _ λ n. S.sign_access_total n user_id) λ access _.
        quiet-Runs (calls-Runs _ λ n. S.sign_refresh_total n user_id device_id)
          λ refresh (m, signed).
            quiet-Runs
              (calls-Runs _ λ n. S.verify_refresh_total m n user_id device_id refresh signed)
              λ _ _. pure-Runs _ (refl, tt)

  start-Total :
      {s : State} {U : State → Type 0} (id user_agent ip : String)
      → ((n : ℕ)
          → All (λ x. same (device_id_of (E.random_uuid n) id) x.device_id ≡ false) s.db.sessions)
      → Runs s (λ _ _. Unit {0}) U (start_session E id user_agent ip)
  unfolding start_session generate_device_id create_session
  start-Total {s} id user_agent ip new =
      quiet-Runs {R = λ d. All (λ x. same d x.device_id ≡ false) s.db.sessions}
        (reading-Runs _ λ n. pure-Runs _ (refl, new n))
        λ device_id new_device. quiet-Runs (tokens-Total id device_id) λ issued _.
          >>=-Runs (creates-Runs L S put_sessions (λ d. d.sessions) same_device _ new_device)
            λ _ _ _. pure-Runs _ tt

  filled_total : (h : String) → is_blank h ≡ false → filled (some h) ≡ some h
  filled_total h e = ap (λ b. elim b [ true ↦ none | false ↦ some h ]) e

  -- A user with the password, whom nothing keeps from signing in.
  login_user-Succeeds :
      {s : State} (password user_agent ip hash : String) (u : User)
      → find (is_ban_of u.id) s.db.bans ≡ none
      → u.is_confirmed ≡ true
      → u.hash_password ≡ some hash
      → Yields (λ n. E.hash n password) hash
      → ((n : ℕ)
          → All (λ x. same (device_id_of (E.random_uuid n) u.id) x.device_id ≡ false) s.db.sessions)
      → Runs s Succeeds (λ _. ⊥) (login_found E password user_agent ip (with_ban s.db u))
  unfolding login_found login_with compare_pass found
  login_user-Succeeds {s} password user_agent ip hash u free is_confirmed has_password (m, hashed)
        new =
      branch-Runs _ (λ banned. absurd (false≢true (sym (ap is_some free) ∙ banned)))
        λ _.
          branch-Runs _ (λ bad. absurd (false≢true (sym (ap not is_confirmed) ∙ bad)))
            λ _.
              subst
                (λ o.
                  Runs s Succeeds (λ _. ⊥)
                    (found denied (login_with E password user_agent ip (with_ban s.db u)) o))
                (sym (
                  ap filled has_password
                  ∙ filled_total hash (S.hash_filled m password hash hashed)))
                (quiet-Runs {R = λ b. b ≡ true}
                  (weaken-Runs (calls-Runs _ λ n. (true, S.compare_total m n password hash hashed))
                    (λ b t r. (r.0, matched b r.1)) λ t q. q)
                  λ b is_true.
                    branch-Runs _ (λ bad. absurd (false≢true (sym (ap not is_true) ∙ bad)))
                      λ _. >>=-Runs (start-Total u.id user_agent ip new) λ _ _ _. pure-Runs _ refl)
    where
      matched : (b : Bool) → Yields (λ n. E.compare n password hash) b → b ≡ true
      matched b (n, e) = ground (arith, S.compare_total m n password hash hashed, e)

-- The account right after its confirmation.
module _ {E : Env} {dto : RegistrationBodyInputDto} {s t w : State} (h : IsFresh E dto s)
    (k : Newcomer E dto s t) (r : Confirmed E k.confirmation.token t w) where
  confirmed_owner : r.user.id ≡ k.user.id
  confirmed_owner = (token_owner h k r.user r.holds.carries).1

  chosen : (u : User) → u.id ≡ k.user.id → changed_if (has_id r.user.id) confirmed u ≡ confirmed u
  chosen u e = ap (λ b. if b then confirmed u else u) (eq→same _ _ (e ∙ sym confirmed_owner))

  newcomer_there : Occurs (confirmed k.user) w.db.users
  newcomer_there = subst (Occurs (confirmed k.user)) (sym (ap (λ x. x.db.users) r.done)) (
      subst (λ u. Occurs u (update_where (has_id r.user.id) confirmed t.db.users))
        (chosen k.user refl)
        (Occurs-update (has_id r.user.id) confirmed k.user t.db.users
          (subst (Occurs k.user) (sym k.users) (inl refl))))

  kept_email : (y : User) (b : Bool) → (if b then confirmed y else y).email ≡ y.email
  unfolding confirmed
  kept_email y true = refl
  kept_email y false = refl

  -- Nobody else has the e-mail.
  newcomer_alone :
      (x : User) → Occurs x w.db.users → has_email dto.email x ≡ true → x ≡ confirmed k.user
  newcomer_alone x here has =
      let (y, there, e) =
        Occurs-update⁻ (has_id r.user.id) confirmed x t.db.users
          (subst (Occurs x) (ap (λ x. x.db.users) r.done) here) in
      among y (subst (Occurs y) k.users there) e
    where
      among :
          (y : User)
          → Occurs y (k.user ∷ s.db.users)
          → x ≡ changed_if (has_id r.user.id) confirmed y
          → x ≡ confirmed k.user
      among y (inl q) e = e ∙ ap (changed_if (has_id r.user.id) confirmed) q ∙ chosen k.user refl
      among y (inr there) e =
          let other =
            All→Occurs (λ u. has_email dto.email u ≡ false) s.db.users h.new_email y there in
          absurd (
            false≢true (
              sym other
              ∙ eq→same _ _ (
                  sym (kept_email y (has_id r.user.id y))
                  ∙ sym (ap (λ u. u.email) e)
                  ∙ same→eq _ _ has)))

module _ {E : Env} (L : DbLaws E) (S : Steady E) {dto : RegistrationBodyInputDto} {s : State} where
  login-Succeeds :
      {t w : State} (h : IsFresh E dto s) (k : Newcomer E dto s t)
      → Confirmed E k.confirmation.token t w
      → (user_agent ip : String)
      → Runs w Succeeds (λ _. ⊥) (login E dto.email dto.password user_agent ip)
  unfolding login get_user_by_email confirmed found
  login-Succeeds {t} {w} h k r user_agent ip =
      attempt-Runs {T = λ _. ⊥} _
        (quiet-Runs (finds-Runs L S (λ _. has_email dto.email) with_ban (λ d. d.users)) λ o sees.
          let (x, here, has, e) =
            Sees-some (has_email dto.email) (with_ban w.db) w.db.users o sees (confirmed k.user)
              (newcomer_there h k r) (eq→same _ _ k.is_email) in
          let is_it = newcomer_alone h k r x here has in
          subst
            (λ o.
              Runs w Succeeds (λ _. ⊥) (found denied (login_found E dto.password user_agent ip) o))
            (sym (e ∙ ap (λ u. some (with_ban w.db u)) is_it))
            (login_user-Succeeds L S dto.password user_agent ip k.hash_password (confirmed k.user)
              (ap (λ l. find (is_ban_of k.user.id) l) (ap (λ x. x.db.bans) r.done)
                ∙ newcomer_not_banned h k k.user refl)
              refl k.is_password k.hashed
              λ n.
                subst
                  (All (λ x. same (device_id_of (E.random_uuid n) k.user.id) x.device_id ≡ false))
                  (sym (ap (λ x. x.db.sessions) r.done ∙ k.sessions)) (h.new_device n k.user.id)))
        λ q z. absurd z

  -- Nobody has the e-mail or the name, no UUID is in use, no call fails, and the clock stays within
  -- the life of a token. Then the registration succeeds and sends a token; the confirmation of that
  -- token succeeds; and then a login with the e-mail and the password of the registration succeeds.
  pub registration-confirmation-login :
      IsFresh E dto s
      → InTime E
      → (user_agent ip : String)
      → Runs s
          (λ a t.
            Succeeds a t
            × ((u : User) × (token : String) × (expired_at : ℕ) × (t.published
                  ≡ registration_user_event u token expired_at dto.html ∷ s.published)
                × (u.email ≡ dto.email)
                × Runs t
                    (λ b w.
                      Succeeds b w
                      × Runs w Succeeds (λ _. ⊥) (login E dto.email dto.password user_agent ip))
                    (λ _. ⊥)
                    (registration_confirmation E token)))
          (λ _. ⊥)
          (registration E dto)
  registration-confirmation-login h in_time user_agent ip =
      weaken-Runs (both-Runs (registration-Implements L dto s) (registration-Succeeds L S dto s h))
        (λ a t (promise, success).
          let k = Registered-Newcomer h (only_success (Registered E dto s) a promise success) in
          (
            success,
            (
              k.user,
              k.confirmation.token,
              k.confirmation.expired_at,
              k.sent,
              k.is_email,
              weaken-Runs
                  (both-Runs (registration_confirmation-Implements L k.confirmation.token t)
                    (confirmation-Succeeds L S h k in_time))
                  (λ b w (promise2, success2). (
                    success2,
                    login-Succeeds h k
                        (only_success (Confirmed E k.confirmation.token t) b promise2 success2)
                        user_agent ip,
                  ))
                  λ x e. e,
            ),
          ))
        λ x e. e
