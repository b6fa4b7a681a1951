-- ===== src/Gateway/Accounts/Journey/Proving.antt =====
-- The confirmation of an account that has just been entered.
use mathlib.Core.Bool.{false≢true}
use somegram_backend.Prelude.{
  ℕ, ◌+◌, ◌≡◌, ◌≤◌, refl, sym, ap, subst, ◌∙◌, String, Bool, true, false, List, [], ◌∷◌, Option,
  none, some, inl, inr, All, Occurs, find, find-Occurs, All→Occurs, ltb, arith,
}
use somegram_backend.Outcome.{missing}
use somegram_backend.Gateway.Text.{same, same→eq, eq→same, same_refl}
use somegram_backend.Gateway.Types.{User, UserConfirmation, RegistrationBodyInputDto}
use somegram_backend.Gateway.UserEntity.{registration_user_event}
use somegram_backend.Gateway.World.{Env, State, required}
use somegram_backend.Gateway.Repositories.Users.{
  has_id, has_email, has_username, has_token, with_ban, alone, is_ban_of, is_confirmation_of,
  is_some_with, put_users, put_confirmations, confirmed, new_user, new_confirmation,
  get_user_by_token, confirm_user,
}
use somegram_backend.Gateway.Repositories.Codes.{is_token, remove_confirmation_by_token}
use somegram_backend.Gateway.Auth.Service.{found, is_some, confirmation_token}
use somegram_backend.Gateway.Auth.Registration.{
  created_dto, handle_confirm, confirm_found, registration_confirmation,
}
use somegram_backend.Gateway.Database.{DbLaws}
use somegram_backend.Gateway.Logic.{
  Runs, Reads, >>=-Runs, quiet-Runs, pure-Runs, branch-Runs, attempt-Runs, weaken-Runs,
}
use somegram_backend.Gateway.Logic.Calls.{Yields}
use somegram_backend.Gateway.Logic.Promises.{reading-Runs}
use somegram_backend.Gateway.Logic.Total.{atomic-Runs}
use somegram_backend.Gateway.Accounts.SignUp.{room, Registered}
use somegram_backend.Gateway.Accounts.Journey.Steady.{
  Steady, Sees-none, Sees-some, finds-Runs, updates-Runs, deletes-Runs,
}
use somegram_backend.Gateway.Accounts.Journey.Entering.{IsFresh, Succeeds, no_room}

-- What the tables hold once the account of a fresh registration is entered.
pub record Newcomer (E : Env) (dto : RegistrationBodyInputDto) (s t : State) : Type 0 where
  pub user : User
  pub confirmation : UserConfirmation
  pub hash_password : String
  pub drawn_id : ℕ
  pub drawn_token : ℕ
  pub drawn_date : ℕ
  pub hashed : Yields (λ n. E.hash n dto.password) hash_password
  pub users : t.db.users ≡ user ∷ s.db.users
  pub confirmations : t.db.confirmations ≡ confirmation ∷ s.db.confirmations
  pub bans : t.db.bans ≡ s.db.bans
  pub sessions : t.db.sessions ≡ s.db.sessions
  pub is_id : user.id ≡ E.random_uuid drawn_id
  pub is_email : user.email ≡ dto.email
  pub is_password : user.hash_password ≡ some hash_password
  pub is_owner : confirmation.user_id ≡ user.id
  pub is_token_of : confirmation.token ≡ confirmation_token (E.random_uuid drawn_token)
  pub is_expiry :
      confirmation.expired_at ≡ E.clock drawn_date + E.email_confirmation_token_expire_after
  pub sent :
      t.published
      ≡ registration_user_event user confirmation.token confirmation.expired_at dto.html
        ∷ s.published

pub Registered-Newcomer :
    {E : Env} {dto : RegistrationBodyInputDto} {s t : State}
    → IsFresh E dto s
    → Registered E dto s t
    → Newcomer E dto s t
unfolding new_user new_confirmation created_dto registration_user_event
Registered-Newcomer {E} {dto} {s} {t} h r =
    let a = r.account in
    let roomy =
      no_room r.by_email r.by_username
        (Sees-none (has_email dto.email) (with_ban s.db) s.db.users r.by_email r.sees_email
          h.new_email)
        (Sees-none (has_username dto.username) alone s.db.users r.by_username r.sees_username
          h.new_username) in
    let expired_at = a.date + E.email_confirmation_token_expire_after in
    let row = created_dto dto a.hash_password a.date (confirmation_token a.uuid) expired_at in
    let e = a.entered in
    let same_rows = ap (λ o. room o s.db) roomy in
    let user = new_user a.id dto.username dto.email (some a.hash_password) a.date false none in
    let confirmation = new_confirmation a.id row in
    record {
      user = user;
      confirmation = confirmation;
      hash_password = a.hash_password;
      drawn_id = a.id_drawn.0;
      drawn_token = a.uuid_drawn.0;
      drawn_date = a.date_drawn.0;
      hashed = a.hashed;
      users = ap (λ x. x.db.users) e ∙ ap (λ d. user ∷ d.users) same_rows;
      confirmations =
          ap (λ x. x.db.confirmations) e ∙ ap (λ d. confirmation ∷ d.confirmations) same_rows;
      bans = ap (λ x. x.db.bans) e ∙ ap (λ d. d.bans) same_rows;
      sessions = ap (λ x. x.db.sessions) e ∙ ap (λ d. d.sessions) same_rows;
      is_id = sym a.id_drawn.1;
      is_email = refl;
      is_password = refl;
      is_owner = refl;
      is_token_of = ap confirmation_token (sym a.uuid_drawn.1);
      is_expiry = ap (λ n. n + E.email_confirmation_token_expire_after) (sym a.date_drawn.1);
      sent = ap (λ x. x.published) e;
    }

find_first_item :
    {A : Type 0} (p : A → Bool) (x : A) (l : List A) → p x ≡ true → find p (x ∷ l) ≡ some x
find_first_item p x l e = ap (λ b. elim b [ true ↦ some x | false ↦ find p l ]) e

pub find_nothing :
    {A : Type 0} (p : A → Bool) (l : List A) → All (λ a. p a ≡ false) l → find p l ≡ none
find_nothing p [] h = refl
find_nothing p (x ∷ l) h =
    ap (λ b. elim b [ true ↦ some x | false ↦ find p l ]) h.0 ∙ find_nothing p l h.1

module _ {E : Env} {dto : RegistrationBodyInputDto} {s t : State} (h : IsFresh E dto s)
    (k : Newcomer E dto s t) where
  -- The new user has the new token.
  pub newcomer_has_token : has_token t.db k.confirmation.token k.user ≡ true
  newcomer_has_token =
      ap
        (λ l.
          is_some_with (λ c. same c.token k.confirmation.token)
            (find (is_confirmation_of k.user.id) l))
        k.confirmations
      ∙ ap (is_some_with (λ c. same c.token k.confirmation.token)) (
          find_first_item (is_confirmation_of k.user.id) k.confirmation s.db.confirmations
            (eq→same _ _ k.is_owner))
      ∙ same_refl k.confirmation.token

  -- The new token is that of the new confirmation alone.
  pub token_is_new :
      (c : UserConfirmation)
      → Occurs c t.db.confirmations
      → same c.token k.confirmation.token ≡ true
      → c ≡ k.confirmation
  token_is_new c here e = among (subst (Occurs c) k.confirmations here)
    where
      among : Occurs c (k.confirmation ∷ s.db.confirmations) → c ≡ k.confirmation
      among (inl q) = q
      among (inr there) =
          let other =
            All→Occurs
              (λ c. same (confirmation_token (E.random_uuid k.drawn_token)) c.token ≡ false)
              s.db.confirmations (h.new_token k.drawn_token) c there in
          absurd (false≢true (sym other ∙ eq→same _ _ (sym (same→eq _ _ e ∙ k.is_token_of))))

  -- Whoever has the new token has the new id.
  pub token_owner :
      (v : User)
      → has_token t.db k.confirmation.token v ≡ true
      → (find (is_confirmation_of v.id) t.db.confirmations ≡ some k.confirmation)
        × (v.id ≡ k.user.id)
  token_owner v has = on_found (find (is_confirmation_of v.id) t.db.confirmations) refl has
    where
      on_found :
          (o : Option UserConfirmation)
          → find (is_confirmation_of v.id) t.db.confirmations ≡ o
          → is_some_with (λ c. same c.token k.confirmation.token) o ≡ true
          → (find (is_confirmation_of v.id) t.db.confirmations ≡ some k.confirmation)
            × (v.id ≡ k.user.id)
      on_found none e q = absurd (false≢true q)
      on_found (some c) e q =
          let (here, theirs) = find-Occurs (is_confirmation_of v.id) t.db.confirmations c e in
          let is_it = token_is_new c here q in
          (
            e ∙ ap some is_it,
            sym (same→eq c.user_id v.id theirs) ∙ ap (λ x. x.user_id) is_it ∙ k.is_owner,
          )

  pub newcomer_not_banned : (v : User) → v.id ≡ k.user.id → find (is_ban_of v.id) t.db.bans ≡ none
  newcomer_not_banned v e =
      ap (λ l. find (is_ban_of v.id) l) k.bans
      ∙ ap (λ i. find (is_ban_of i) s.db.bans) (e ∙ k.is_id)
      ∙ find_nothing (is_ban_of (E.random_uuid k.drawn_id)) s.db.bans (h.new_ban k.drawn_id)

-- The token is confirmed in time.
abbrev pub InTime : Env → Type 0
InTime E = (m n : ℕ) → E.clock n ≤ E.clock m + E.email_confirmation_token_expire_after

le→ltb : (a b : ℕ) → a ≤ b → ltb b a ≡ false
le→ltb a b h = ground arith

required-some-Runs :
    {A : Type 0} {s : State} {U : State → Type 0} (o : Option A) (a : A)
    → o ≡ some a
    → Runs s (Reads s (λ x. x ≡ a)) U (required o)
unfolding required
required-some-Runs none a e = absurd (ground arith)
required-some-Runs (some x) a e = record { runs = λ w q. (q, ground arith) }

module _ {E : Env} (L : DbLaws E) (S : Steady E) {dto : RegistrationBodyInputDto} {s t : State}
    (h : IsFresh E dto s) (k : Newcomer E dto s t) where
  confirms-Runs :
      (v : User)
      → Occurs v t.db.users
      → Runs t (λ _ _. Unit {0}) (λ _. ⊥) (handle_confirm E v.id k.confirmation.token)
  unfolding handle_confirm confirm_user remove_confirmation_by_token
  confirms-Runs v here = atomic-Runs E (
      >>=-Runs
        (updates-Runs L S put_users (λ d. d.users) (has_id v.id) confirmed v here (same_refl v.id))
        λ _ x e.
          weaken-Runs
            (deletes-Runs L S {U = λ _. ⊥} put_confirmations (λ d. d.confirmations)
              (is_token k.confirmation.token) k.confirmation
              (subst (λ y. Occurs k.confirmation y.db.confirmations) (sym e)
                (subst (Occurs k.confirmation) (sym k.confirmations) (inl refl)))
              (same_refl k.confirmation.token))
            (λ _ _ _. tt) λ y q. q)

  found-Succeeds :
      InTime E
      → (n : ℕ) (v : User) → Occurs v t.db.users
      → has_token t.db k.confirmation.token v ≡ true
      → Runs t Succeeds
          (λ _. ⊥)
          (confirm_found E
            (E.clock n)
            (with_ban t.db v, find (is_confirmation_of v.id) t.db.confirmations))
  unfolding confirm_found
  found-Succeeds in_time n v here has =
      let (own, is_id) = token_owner h k v has in
      branch-Runs _
        (λ banned.
          absurd (false≢true (sym (ap is_some (newcomer_not_banned h k v is_id)) ∙ banned)))
        λ _. quiet-Runs (required-some-Runs _ k.confirmation own) λ c is_it.
          branch-Runs _
            (λ late. absurd (
              false≢true (
                sym (
                  le→ltb (E.clock n) c.expired_at (
                    subst (λ e. E.clock n ≤ e) (sym (ap (λ x. x.expired_at) is_it ∙ k.is_expiry))
                      (in_time k.drawn_date n)))
                ∙ late)))
            λ _.
              >>=-Runs
                (subst (λ x. Runs t (λ _ _. Unit {0}) (λ _. ⊥) (handle_confirm E v.id x))
                  (sym (ap (λ x. x.token) is_it)) (confirms-Runs v here))
                λ _ _ _. pure-Runs _ refl

  pub confirmation-Succeeds :
      InTime E → Runs t Succeeds (λ _. ⊥) (registration_confirmation E k.confirmation.token)
  unfolding registration_confirmation get_user_by_token found
  confirmation-Succeeds in_time =
      attempt-Runs {T = λ _. ⊥} _
        (reading-Runs _ λ n.
          quiet-Runs
            (finds-Runs L S (λ d. has_token d k.confirmation.token)
              (λ d u. (with_ban d u, find (is_confirmation_of u.id) d.confirmations))
              (λ d. d.users))
            λ o sees.
              let (v, here, has, e) =
                Sees-some (has_token t.db k.confirmation.token)
                  (λ u. (with_ban t.db u, find (is_confirmation_of u.id) t.db.confirmations))
                  t.db.users o sees k.user (subst (Occurs k.user) (sym k.users) (inl refl))
                  (newcomer_has_token h k) in
              subst (λ x. Runs t Succeeds (λ _. ⊥) (found missing (confirm_found E (E.clock n)) x))
                (sym e) (found-Succeeds in_time n v here has))
        λ x q. absurd q
