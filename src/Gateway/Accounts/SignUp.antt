-- ===== src/Gateway/Accounts/SignUp.antt =====
-- The registration of a user as a step on the tables.
use somegram_backend.Prelude.{
  ℕ, ◌+◌, ◌≡◌, refl, ◌∙◌, ap, String, false, ◌∷◌, Option, none, some, All, without, find, arith,
  subst,
}
use somegram_backend.Gateway.Text.{same}
use somegram_backend.Gateway.Types.{
  User, UserConfirmation, UserCreatedDto, RegistrationBodyInputDto, Db,
}
use somegram_backend.Gateway.UserEntity.{UserEntity, registration_user_event}
use somegram_backend.Gateway.World.{Env, State}
use somegram_backend.Gateway.Repositories.Users.{
  has_id, has_email, has_username, with_ban, alone, same_id, same_confirmation, put_users,
  put_confirmations, cascade, new_user, new_confirmation, get_user_by_email, get_user_by_username,
  create_not_confirmed_user, remove_user_by_id, is_follow_of, restrict,
}
use somegram_backend.Gateway.Auth.Service.{confirmation_token, generate_hash}
use somegram_backend.Gateway.Auth.Registration.{
  holds_confirmed, handle_user, created_dto, remove_user, execute_transaction, register,
  registration,
}
use somegram_backend.Gateway.Database.{DbLaws}
use somegram_backend.Gateway.Logic.{
  Runs, Same, >>=-Runs, quiet-Runs, pure-Runs, branch-Runs, weaken-Runs,
}
use somegram_backend.Gateway.Logic.Calls.{
  Yields, call-Runs, change-Runs, read-Runs, with_event, publish-Runs, transactional-Runs,
}
use somegram_backend.Gateway.Logic.Promises.{
  Meets, Implements, attempt-Implements, refuse-Meets, succeed-Runs, weaken-Meets,
}
use somegram_backend.Gateway.Accounts.Rows.{Sees, entity-Runs, with_table, create-Runs}

-- The tables without the account that makes room.
abbrev pub room : Option String → Db → Db
room none d = d
room (some id) d = cascade id d (without (has_id id) d.users)

-- Nobody follows the account that makes room, and it follows nobody.
abbrev pub Unreferenced : Option String → Db → Type 0
Unreferenced none d = Unit
Unreferenced (some id) d = find (is_follow_of id) d.follows ≡ none

abbrev pub with_account : User → UserConfirmation → Db → Db
with_account u c d = record d { users = u ∷ d.users; confirmations = c ∷ d.confirmations }

-- A reading of the clock, or a UUID.
abbrev pub Drawn : {A : Type 0} → (ℕ → A) → A → Type 0
Drawn f a = (n : ℕ) × (f n ≡ a)

-- The account that is entered: not confirmed, with the hash of the password and a token.
pub record Entered (E : Env) (dto : RegistrationBodyInputDto) (dropped : Option String)
    (s t : State) : Type 0 where
  pub id : String
  pub date : ℕ
  pub hash_password : String
  pub uuid : String
  pub hashed : Yields (λ n. E.hash n dto.password) hash_password
  pub id_drawn : Drawn E.random_uuid id
  pub date_drawn : Drawn E.clock date
  pub uuid_drawn : Drawn E.random_uuid uuid
  pub unreferenced : Unreferenced dropped s.db
  pub new_id : All (λ u. same id u.id ≡ false) (room dropped s.db).users
  pub entered :
      let token = confirmation_token uuid in
      let expired_at = date + E.email_confirmation_token_expire_after in
      let row = created_dto dto hash_password date token expired_at in
      let user = new_user id dto.username dto.email (some hash_password) date false none in
      t
      ≡ with_event
          (registration_user_event user token expired_at dto.html)
          (record s { db = with_account user (new_confirmation id row) (room dropped s.db) })

-- What a registration that succeeds has found and done.
pub record Registered (E : Env) (dto : RegistrationBodyInputDto) (s t : State) : Type 0 where
  pub by_email : Option UserEntity
  pub by_username : Option UserEntity
  pub sees_email : Sees (has_email dto.email) (with_ban s.db) s.db.users by_email
  pub sees_username : Sees (has_username dto.username) alone s.db.users by_username
  pub email_open : holds_confirmed by_email ≡ false
  pub username_open : holds_confirmed by_username ≡ false
  pub account : Entered E dto (handle_user by_email by_username) s t

abbrev row_of : String → UserCreatedDto → User
row_of id dto =
    new_user id dto.username dto.email (some dto.hash_password) dto.created_at dto.is_confirmed none

restrict-some :
    {A B : Type 0} (o : Option A) (deleted : Option B) (b : B)
    → restrict o deleted ≡ some b
    → (o ≡ none) × (deleted ≡ some b)
restrict-some none deleted b e = (refl, e)
restrict-some (some a) deleted b e = absurd (ground arith)

module _ {E : Env} (L : DbLaws E) where
  remove_user-Runs :
      {s : State} {T : State → Type 0} (dropped : Option String)
      → T s
      → Runs s
          (λ _ t. (t ≡ record s { db = room dropped s.db }) × Unreferenced dropped s.db)
          T
          (remove_user E dropped)
  unfolding remove_user remove_user_by_id
  remove_user-Runs none h = pure-Runs tt (refl, tt)
  remove_user-Runs {s} (some id) h =
      weaken-Runs (change-Runs (cascade id) _ h)
        (λ u t r.
          let (n, l, e, q) = r in
          let (free, deleted) = restrict-some (find (is_follow_of id) s.db.follows) _ l e in
          (
            q
                ∙ ap (λ k. with_table (cascade id) k s)
                    (L.delete_rows n (has_id id) s.db.users l deleted).0,
            free,
          ))
        λ t k. k

  -- The rows that a registration creates.
  abbrev Created : UserCreatedDto → State → User → State → Type 0
  Created dto s u t =
      (id : String) × Drawn E.random_uuid id
      × (u ≡ row_of id dto)
      × All (λ v. same id v.id ≡ false) s.db.users
      × (t ≡ record s { db = with_account u (new_confirmation id dto) s.db })

  create_user-Runs :
      {s : State} (dto : UserCreatedDto)
      → Runs s (Created dto s) (λ t. t.published ≡ s.published) (create_not_confirmed_user E dto)
  unfolding create_not_confirmed_user new_user
  create_user-Runs {s} dto = quiet-Runs (read-Runs E.random_uuid) λ id drawn.
      >>=-Runs
        {R = λ _ v.
          (v ≡ record s { db = with_account (row_of id dto) (new_confirmation id dto) s.db })
          × All (λ u. same id u.id ≡ false) s.db.users}
        (transactional-Runs L refl (
          >>=-Runs (create-Runs L put_users (λ d. d.users) same_id _ refl) λ _ t h.
            weaken-Runs
              (create-Runs L {T = λ t. t.published ≡ s.published} put_confirmations
                (λ d. d.confirmations) same_confirmation (new_confirmation id dto)
                (ap (λ t. t.published) h.0))
              (λ _ v r. (rows id t v h.0 r.0, h.1)) λ v k. k))
        λ _ v r. pure-Runs _ (id, drawn, refl, r.1, r.0)
    where
      rows :
          (id : String) (t v : State)
          → t ≡ with_table put_users (row_of id dto ∷ s.db.users) s
          → v ≡ with_table put_confirmations (new_confirmation id dto ∷ t.db.confirmations) t
          → v ≡ record s { db = with_account (row_of id dto) (new_confirmation id dto) s.db }
      rows id t v e q =
          q
          ∙ ap (λ t. with_table put_confirmations (new_confirmation id dto ∷ t.db.confirmations) t)
              e

  transaction-Runs :
      {s : State} (dto : UserCreatedDto) (dropped : Option String)
      → Runs s
          (λ u t.
            (v : State) × (v ≡ record s { db = room dropped s.db })
            × Unreferenced dropped s.db
            × Created dto v u t)
          (Same s)
          (execute_transaction E dto dropped)
  unfolding execute_transaction
  transaction-Runs {s} dto dropped = transactional-Runs L refl (
      >>=-Runs (remove_user-Runs dropped refl) λ _ t e.
        weaken-Runs (create_user-Runs dto) (λ u v r. (t, e.0, e.1, r))
          λ v q. q ∙ ap (λ t. t.published) e.0)

  register-Runs :
      {s : State} (dto : RegistrationBodyInputDto) (dropped : Option String)
      → Meets s (Entered E dto dropped s) (register E dto dropped)
  unfolding register generate_hash created_dto
  register-Runs {s} dto dropped = quiet-Runs (read-Runs E.clock) λ date dd.
      quiet-Runs (call-Runs _ refl) λ hash hashed. quiet-Runs (read-Runs E.random_uuid) λ uuid ud.
        >>=-Runs (transaction-Runs _ dropped) λ u t c.
          >>=-Runs (publish-Runs _)
            λ _ v p. succeed-Runs _ refl (entered date hash uuid dd ud hashed u t v c p)
    where
      entered :
          (date : ℕ) (hash uuid : String)
          → Drawn E.clock date
          → Drawn E.random_uuid uuid
          → Yields (λ n. E.hash n dto.password) hash
          → (u : User) (t v : State)
          → (r : State) × (r ≡ record s { db = room dropped s.db })
            × Unreferenced dropped s.db
            × Created
                (created_dto dto hash date
                  (confirmation_token uuid)
                  (date + E.email_confirmation_token_expire_after))
                r
                u
                t
          → v
            ≡ with_event
                (registration_user_event u
                  (confirmation_token uuid)
                  (date + E.email_confirmation_token_expire_after)
                  dto.html)
                t
          → Entered E dto dropped s v
      entered date hash uuid dd ud hashed u t v (r, e, free, c) p =
          let (id, drawn, eu, new_id, et) = c in
          record {
            id = id;
            date = date;
            hash_password = hash;
            uuid = uuid;
            hashed = hashed;
            id_drawn = drawn;
            date_drawn = dd;
            uuid_drawn = ud;
            unreferenced = free;
            new_id = subst (λ r. All (λ v. same id v.id ≡ false) r.db.users) e new_id;
            entered = cc;
          }

  -- A registration that answers success has found no confirmed account with its e-mail or its
  -- name, as far as it looked, and has entered a new account in the place of an unconfirmed one;
  -- else it has changed nothing and sent nothing. It always answers.
  pub registration-Implements :
      (dto : RegistrationBodyInputDto) → Implements (Registered E dto) (registration E dto)
  unfolding registration get_user_by_email get_user_by_username
  registration-Implements dto = attempt-Implements _ λ s.
      quiet-Runs (entity-Runs L (λ _. has_email dto.email) with_ban (λ d. d.users) refl)
        λ by_email se.
          quiet-Runs
            (entity-Runs L (λ _. has_username dto.username) (λ _. alone) (λ d. d.users) refl)
            λ by_username su.
              branch-Runs _ (λ _. refuse-Meets _ refl)
                λ free. weaken-Meets (register-Runs dto (handle_user by_email by_username)) λ t h.
                  record {
                    by_email = by_email;
                    by_username = by_username;
                    sees_email = se;
                    sees_username = su;
                    email_open = ground arith;
                    username_open = ground arith;
                    account = h;
                  }
