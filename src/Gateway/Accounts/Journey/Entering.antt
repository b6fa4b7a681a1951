-- ===== src/Gateway/Accounts/Journey/Entering.antt =====
-- A registration that nobody is in the way of.
use somegram_backend.Prelude.{
  ℕ, ◌≡◌, refl, sym, ap, subst, ◌∙◌, String, true, false, ◌||◌, Option, none, some, All, All→Occurs,
  Occurs→All, arith,
}
use mathlib.Core.Bool.{false≢true}
use somegram_backend.Gateway.Text.{same}
use somegram_backend.Gateway.Types.{UserConfirmation, UserCreatedDto, RegistrationBodyInputDto}
use somegram_backend.Gateway.UserEntity.{UserEntity}
use somegram_backend.Gateway.World.{Env, State}
use somegram_backend.Gateway.Repositories.Users.{
  has_email, has_username, with_ban, alone, is_ban_of, same_id, same_confirmation, put_users,
  put_confirmations, new_user, new_confirmation, get_user_by_email, get_user_by_username,
  create_not_confirmed_user,
}
use somegram_backend.Gateway.Auth.Service.{Answer, confirmation_token, device_id_of, generate_hash}
use somegram_backend.Gateway.Auth.Registration.{
  holds_confirmed, handle_user, created_dto, remove_user, execute_transaction, register,
  registration,
}
use somegram_backend.Gateway.Database.{DbLaws}
use somegram_backend.Gateway.Logic.{
  Runs, >>=-Runs, quiet-Runs, pure-Runs, branch-Runs, attempt-Runs, weaken-Runs,
}
use somegram_backend.Gateway.Logic.Calls.{publish-Runs}
use somegram_backend.Gateway.Logic.Promises.{is_success, reading-Runs}
use somegram_backend.Gateway.Logic.Total.{atomic-Runs}
use somegram_backend.Gateway.Accounts.Journey.Steady.{
  Steady, Sees-none, finds-Runs, creates-Runs, calls-Runs,
}

-- Nobody has the e-mail or the name, and no UUID is in use.
pub record IsFresh (E : Env) (dto : RegistrationBodyInputDto) (s : State) : Type 0 where
  pub new_email : All (λ u. has_email dto.email u ≡ false) s.db.users
  pub new_username : All (λ u. has_username dto.username u ≡ false) s.db.users
  pub new_id : (n : ℕ) → All (λ u. same (E.random_uuid n) u.id ≡ false) s.db.users
  pub new_ban : (n : ℕ) → All (λ b. is_ban_of (E.random_uuid n) b ≡ false) s.db.bans
  pub new_owner : (n : ℕ) → All (λ c. same (E.random_uuid n) c.user_id ≡ false) s.db.confirmations
  pub new_token :
      (n : ℕ)
      → All (λ c. same (confirmation_token (E.random_uuid n)) c.token ≡ false) s.db.confirmations
  pub new_device :
      (n : ℕ) (id : String)
      → All (λ x. same (device_id_of (E.random_uuid n) id) x.device_id ≡ false) s.db.sessions

abbrev pub Succeeds : {C : Type 0} → Answer C → State → Type 0
Succeeds a t = is_success a.app_result ≡ true

nobody :
    (a b : Option UserEntity)
    → a ≡ none
    → b ≡ none
    → (holds_confirmed a || holds_confirmed b) ≡ false
nobody none none p q = refl
nobody (some x) b p q = absurd (ground arith)
nobody none (some y) p q = absurd (ground arith)

pub no_room : (a b : Option UserEntity) → a ≡ none → b ≡ none → handle_user a b ≡ none
unfolding handle_user
no_room none none p q = refl
no_room (some x) b p q = absurd (ground arith)
no_room none (some y) p q = absurd (ground arith)

module _ {E : Env} (L : DbLaws E) (S : Steady E) where
  new_confirmations :
      {dto : RegistrationBodyInputDto} {s : State} (h : IsFresh E dto s) (m n : ℕ)
      (row : UserCreatedDto)
      → row.confirmation_token ≡ confirmation_token (E.random_uuid n)
      → All
          (λ c. same_confirmation (new_confirmation (E.random_uuid m) row) c ≡ false)
          s.db.confirmations
  unfolding new_confirmation
  new_confirmations {s = s} h m n row e = Occurs→All _ s.db.confirmations λ c here.
      apart c
        (All→Occurs (λ c. same (E.random_uuid m) c.user_id ≡ false) s.db.confirmations
          (h.new_owner m) c here)
        (subst (λ x. same x c.token ≡ false) (sym e)
          (All→Occurs (λ c. same (confirmation_token (E.random_uuid n)) c.token ≡ false)
            s.db.confirmations (h.new_token n) c here))
    where
      apart :
          (c : UserConfirmation)
          → same (E.random_uuid m) c.user_id ≡ false
          → same row.confirmation_token c.token ≡ false
          → same_confirmation (new_confirmation (E.random_uuid m) row) c ≡ false
      apart c p q =
          ap (λ b. elim b [ true ↦ true | false ↦ same row.confirmation_token c.token ]) p ∙ q

  creates_account-Runs :
      {dto : RegistrationBodyInputDto} {s : State} (h : IsFresh E dto s) (n : ℕ)
      (row : UserCreatedDto)
      → row.confirmation_token ≡ confirmation_token (E.random_uuid n)
      → Runs s (λ _ _. Unit {0}) (λ _. ⊥) (create_not_confirmed_user E row)
  unfolding create_not_confirmed_user new_user
  creates_account-Runs {s = s} h n row e = reading-Runs _ λ m.
      >>=-Runs {R = λ _ _. Unit {0}}
        (atomic-Runs E (
          >>=-Runs (creates-Runs L S put_users (λ d. d.users) same_id _ (h.new_id m)) λ _ t q.
            weaken-Runs
              (creates-Runs L S {U = λ _. ⊥} put_confirmations (λ d. d.confirmations)
                same_confirmation _
                (subst
                  (λ x.
                    All (λ c. same_confirmation (new_confirmation (E.random_uuid m) row) c ≡ false)
                      x.db.confirmations)
                  (sym q) (new_confirmations h m n row e)))
              (λ _ _ _. tt) λ v k. k))
        λ _ _ _. pure-Runs _ tt

  register-Succeeds :
      {dto : RegistrationBodyInputDto} {s : State}
      → IsFresh E dto s
      → Runs s Succeeds (λ _. ⊥) (register E dto none)
  unfolding register generate_hash created_dto execute_transaction remove_user
  register-Succeeds {dto} h = reading-Runs _ λ n.
      quiet-Runs (calls-Runs _ λ k. S.hash_total k dto.password) λ hash _. reading-Runs _ λ m.
        >>=-Runs {R = λ _ _. Unit {0}}
          (atomic-Runs E (
            quiet-Runs {R = λ _. Unit {0}} (pure-Runs tt (refl, tt))
              λ _ _. creates_account-Runs h m _ refl))
          λ _ _ _. >>=-Runs (publish-Runs _) λ _ _ _. pure-Runs _ refl

  pub registration-Succeeds :
      (dto : RegistrationBodyInputDto) (s : State)
      → IsFresh E dto s
      → Runs s Succeeds (λ _. ⊥) (registration E dto)
  unfolding registration get_user_by_email get_user_by_username
  registration-Succeeds dto s h =
      attempt-Runs {T = λ _. ⊥} _
        (quiet-Runs (finds-Runs L S (λ _. has_email dto.email) with_ban (λ d. d.users)) λ a sa.
          quiet-Runs (finds-Runs L S (λ _. has_username dto.username) (λ _. alone) (λ d. d.users))
            λ b sb.
              let no_a =
                Sees-none (has_email dto.email) (with_ban s.db) s.db.users a sa h.new_email in
              let no_b =
                Sees-none (has_username dto.username) alone s.db.users b sb h.new_username in
              branch-Runs _ (λ bad. absurd (false≢true (sym (nobody a b no_a no_b) ∙ bad)))
                λ _.
                  subst (λ o. Runs s Succeeds (λ _. ⊥) (register E dto o))
                    (sym (no_room a b no_a no_b)) (register-Succeeds h))
        λ t k. absurd k
