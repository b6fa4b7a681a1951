-- ===== src/Gateway/Accounts/Confirming.antt =====
-- The confirmation of a registration, and a new token for it, as steps on the tables.
use somegram_backend.Prelude.{
  ℕ, ◌+◌, ◌≡◌, ◌≤◌, refl, ◌∙◌, ap, String, true, false, Option, none, some, Occurs, find, without,
  update_where, ltb→le,
}
use somegram_backend.Gateway.Types.{User, UserConfirmation, Db}
use somegram_backend.Gateway.UserEntity.{registration_user_event}
use somegram_backend.Gateway.World.{Env, State}
use somegram_backend.Gateway.Repositories.Users.{
  has_id, has_token, with_ban, is_ban_of, is_confirmation_of, put_users, put_confirmations,
  confirmed, get_user_by_token, confirm_user,
}
use somegram_backend.Gateway.Repositories.Codes.{
  is_token, update_confirmation, remove_confirmation_by_token, update_confirmation_by_token,
}
use somegram_backend.Gateway.Auth.Service.{confirmation_token}
use somegram_backend.Gateway.Auth.Registration.{
  handle_confirm, confirm_found, registration_confirmation, resend_to, resend_found,
  registration_email_resending,
}
use somegram_backend.Gateway.Database.{DbLaws}
use somegram_backend.Gateway.Logic.{Runs, Same, >>=-Runs, quiet-Runs, branch-Runs, weaken-Runs}
use somegram_backend.Gateway.Logic.Calls.{
  required-Runs, with_event, publish-Runs, transactional-Runs,
}
use somegram_backend.Gateway.Logic.Promises.{
  Meets, Implements, attempt-Implements, refuse-Meets, succeed-Runs, reading-Runs,
}
use somegram_backend.Gateway.Accounts.Rows.{
  with_table, update-Runs, delete-Runs, find-Meets, is_some-false,
}

-- A user that is not banned, with the confirmation that carries the token.
pub record Holds (token : String) (s : State) (u : User) (c : UserConfirmation) : Type 0 where
  pub is_user : Occurs u s.db.users
  pub is_own : find (is_confirmation_of u.id) s.db.confirmations ≡ some c
  pub carries : has_token s.db token u ≡ true
  pub is_allowed : find (is_ban_of u.id) s.db.bans ≡ none

abbrev pub confirm_in : String → String → Db → Db
confirm_in id token d = record d {
  users = update_where (has_id id) confirmed d.users;
  confirmations = without (is_token token) d.confirmations;
}

-- The user is confirmed by a token that has not expired, and the token is spent.
pub record Confirmed (E : Env) (token : String) (s t : State) : Type 0 where
  pub user : User
  pub confirmation : UserConfirmation
  pub holds : Holds token s user confirmation
  pub call : ℕ
  pub in_time : E.clock call ≤ confirmation.expired_at
  pub done : t ≡ record s { db = confirm_in user.id confirmation.token s.db }

-- An unconfirmed user gets another token in the place of the one it has.
pub record Resent (E : Env) (token html : String) (s t : State) : Type 0 where
  pub user : User
  pub confirmation : UserConfirmation
  pub holds : Holds token s user confirmation
  pub is_open : user.is_confirmed ≡ false
  pub date : ℕ
  pub uuid : String
  pub done :
      let new_token = confirmation_token uuid in
      let expired_at = date + E.email_confirmation_token_expire_after in
      t
      ≡ with_event (registration_user_event user new_token expired_at html) (record s {
        db = put_confirmations s.db (
            update_where
              (is_token token)
              (update_confirmation new_token expired_at)
              s.db.confirmations);
      })

module _ {E : Env} (L : DbLaws E) where
  handle_confirm-Runs :
      {s : State} (id token : String)
      → Runs s
          (λ _ t. t ≡ record s { db = confirm_in id token s.db })
          (Same s)
          (handle_confirm E id token)
  unfolding handle_confirm confirm_user remove_confirmation_by_token
  handle_confirm-Runs {s} id token = transactional-Runs L refl (
      >>=-Runs (update-Runs L put_users (λ d. d.users) (has_id id) confirmed refl) λ _ t e.
        weaken-Runs
          (delete-Runs L {T = λ t. t.published ≡ s.published} put_confirmations
            (λ d. d.confirmations) (is_token token) (ap (λ t. t.published) e))
          (λ _ v r.
            r.0
            ∙ ap (λ t. with_table put_confirmations (without (is_token token) t.db.confirmations) t)
                e)
          λ v k. k)

  confirm_found-Runs :
      {s : State} (token : String) (n : ℕ) (u : User) (c : Option UserConfirmation)
      → Occurs u s.db.users
      → has_token s.db token u ≡ true
      → c ≡ find (is_confirmation_of u.id) s.db.confirmations
      → Meets s (Confirmed E token s) (confirm_found E (E.clock n) (with_ban s.db u, c))
  unfolding confirm_found
  confirm_found-Runs {s} token n u c here has e =
      branch-Runs _ (λ _. refuse-Meets _ refl)
        λ free. quiet-Runs (required-Runs c refl) λ confirmation own.
          branch-Runs _ (λ _. refuse-Meets _ refl)
            λ valid. >>=-Runs (handle_confirm-Runs u.id confirmation.token) λ _ t done.
              succeed-Runs _ refl (record {
                user = u;
                confirmation = confirmation;
                holds = record {
                  is_user = here;
                  is_own = cc;
                  carries = has;
                  is_allowed = is_some-false (find (is_ban_of u.id) s.db.bans) free;
                };
                call = n;
                in_time = ltb→le _ _ valid;
                done = done;
              })

  -- A confirmation that answers success has confirmed a user who is not banned and has spent the
  -- token, which had not expired; else it has changed nothing. It always answers.
  pub registration_confirmation-Implements :
      (token : String) → Implements (Confirmed E token) (registration_confirmation E token)
  unfolding registration_confirmation get_user_by_token
  registration_confirmation-Implements token = attempt-Implements _ λ s. reading-Runs _ λ n.
      find-Meets L (λ d. has_token d token)
        (λ d u. (with_ban d u, find (is_confirmation_of u.id) d.confirmations)) (λ d. d.users) _ _
        refl λ u here has. confirm_found-Runs token n u _ here has refl

  resend_to-Runs :
      {s : State} (token html : String) (u : User) (c : Option UserConfirmation)
      → Occurs u s.db.users
      → has_token s.db token u ≡ true
      → c ≡ find (is_confirmation_of u.id) s.db.confirmations
      → find (is_ban_of u.id) s.db.bans ≡ none
      → Meets s (Resent E token html s) (resend_to E token html u c)
  unfolding resend_to update_confirmation_by_token update_confirmation
  resend_to-Runs token html u none here has e free = refuse-Meets _ refl
  resend_to-Runs {s} token html u (some c) here has e free =
      branch-Runs _ (λ _. refuse-Meets _ refl)
        λ is_open. reading-Runs _ λ i. reading-Runs _ λ n.
          >>=-Runs (update-Runs L put_confirmations (λ d. d.confirmations) (is_token token) _ refl)
            λ _ t e1. >>=-Runs (publish-Runs _) λ _ v e2. succeed-Runs _ refl (record {
              user = u;
              confirmation = c;
              holds = record { is_user = here; is_own = cc; carries = has; is_allowed = free };
              is_open = is_open;
              date = E.clock n;
              uuid = E.random_uuid i;
              done = e2 ∙ ap (with_event _) e1;
            })

  -- A new e-mail that answers success has replaced the token of an unconfirmed user who is not
  -- banned and has sent the new one; else it has changed nothing. It always answers.
  pub registration_email_resending-Implements :
      (token html : String)
      → Implements (Resent E token html) (registration_email_resending E token html)
  unfolding registration_email_resending resend_found get_user_by_token
  registration_email_resending-Implements token html = attempt-Implements _ λ s.
      find-Meets L (λ d. has_token d token)
        (λ d u. (with_ban d u, find (is_confirmation_of u.id) d.confirmations)) (λ d. d.users) _ _
        refl
        λ u here has.
          branch-Runs _ (λ _. refuse-Meets _ refl)
            λ free.
              resend_to-Runs token html u _ here has refl
                (is_some-false (find (is_ban_of u.id) s.db.bans) free)
