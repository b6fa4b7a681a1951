-- ===== src/Gateway/Accounts/Lasting/Kept.antt =====
-- The steps of the use cases, and their runs.
use somegram_backend.Prelude.{
  ℕ, ◌≡◌, refl, sym, ap, subst, ◌∙◌, String, Bool, false, List, Option, none, some, All, inl, inr,
}
use somegram_backend.Gateway.Text.{same}
use somegram_backend.Gateway.Types.{User, UserResetPassword, Db}
use somegram_backend.Gateway.World.{Env, State}
use somegram_backend.Gateway.Repositories.Users.{has_id, confirmed, with_password, new_user}
use somegram_backend.Gateway.Auth.Registration.{handle_user}
use somegram_backend.Gateway.Commands.{
  Command, registration_command, registration_confirmation_command,
  registration_email_resending_command, restore_password_command,
  restore_password_confirmation_command, login_command, logout_command, renew_tokens_command,
  terminate_device_command, terminate_others_command, follow_command, unfollow_command,
  delete_follower_command, google_command, github_command, run,
}
use somegram_backend.Gateway.Database.{DbLaws}
use somegram_backend.Gateway.Logic.{Runs}
use somegram_backend.Gateway.Logic.Calls.{with_event}
use somegram_backend.Gateway.Accounts.SignUp.{room}
use somegram_backend.Gateway.Accounts.Recovery.{code_stored}
use somegram_backend.Gateway.Accounts.Providers.{ProviderSignIn, known, linked, created}
use somegram_backend.Gateway.Accounts.Follows.{Adds}
use somegram_backend.Gateway.Accounts.Steps.{Step, run-Preserves}
use somegram_backend.Gateway.Accounts.Lasting.{
  LastsIn, Lasts, update-LastsIn, cons-LastsIn, dropped_open, room-LastsIn, confirmed_if-LastsIn,
}

-- The users after a sign-in with a provider, whose account is not one of them.
Provider-Lasts :
    {E : Env} {belongs : Db → User → Bool} {link : String → Db → Db} {m : String}
    {first_name : Option String} {user_agent ip : String} {s t : State} {id email : String}
    → ((x : String) (d : Db) → (link x d).users ≡ d.users)
    → ProviderSignIn E belongs link m first_name user_agent ip s t
    → Lasts id email s
    → Lasts id email t
unfolding new_user
Provider-Lasts {id = id} {email} k (known u tokens here has free started) h =
    subst (Lasts id email) (sym started.done) h
Provider-Lasts {s = s} {id = id} {email} k (linked u tokens v here has free started e) h =
    subst (Lasts id email) (sym (e ∙ ap (with_event _) started.done)) (
      subst (LastsIn id email) (sym (k u.id _))
        (confirmed_if-LastsIn u.is_confirmed u.id s.db.users h))
Provider-Lasts {s = s} {id = id} {email} k (created x uuid date tokens v n new_id u eu started e)
      h =
    subst (Lasts id email) (sym (e ∙ ap (with_event _) started.done)) (
      subst (LastsIn id email) (sym (k u.id _)) (
        cons-LastsIn u s.db.users
          (subst (λ y. All (λ v. same y v.id ≡ false) s.db.users) (sym (ap (λ u. u.id) eu)) new_id)
          h))

Step-Lasts :
    (E : Env) (id email : String) (c : Command) (s t : State)
    → Step E c s t
    → Lasts id email s
    → Lasts id email t
unfolding confirmed with_password new_user
Step-Lasts E id email (registration_command dto) s t r h =
    let dropped = handle_user r.by_email r.by_username in
    subst (Lasts id email) (sym r.account.entered) (
      cons-LastsIn _ (room dropped s.db).users r.account.new_id (
        room-LastsIn dropped s.db
          (λ x.
            dropped_open dto.email dto.username s.db r.by_email r.by_username x r.sees_email
              r.sees_username r.email_open r.username_open)
          h))
Step-Lasts E id email (registration_confirmation_command token) s t r h =
    subst (Lasts id email) (sym r.done)
      (update-LastsIn (has_id r.user.id) confirmed s.db.users (λ u. (refl, refl)) (λ u e. refl) h)
Step-Lasts E id email (registration_email_resending_command token html) s t r h =
    subst (Lasts id email) (sym r.done) h
Step-Lasts E id email (restore_password_command m html) s t r h =
    subst (Lasts id email) (sym r.done) (stored r.user.id _ _ _ r.last)
  where
    stored :
        (x code : String) (date expired_at : ℕ) (last : Option UserResetPassword)
        → LastsIn id email (code_stored x code date expired_at last s.db).users
    stored x code date expired_at none = h
    stored x code date expired_at (some last) = h
Step-Lasts E id email (restore_password_confirmation_command code password) s t r h =
    subst (Lasts id email) (sym r.done) (
      update-LastsIn (has_id r.user.id) (with_password (some r.hash_password)) s.db.users
        (λ u. (refl, refl)) (λ u e. e) h)
Step-Lasts E id email (login_command m password user_agent ip) s t r h =
    subst (Lasts id email) (sym r.started.done) h
Step-Lasts E id email (logout_command device_id) s t r h = subst (Lasts id email) (sym r.done) h
Step-Lasts E id email (renew_tokens_command user_id device_id) s t r h =
    subst (Lasts id email) (sym r.done) h
Step-Lasts E id email (terminate_device_command user_id device_id) s t r h =
    subst (Lasts id email) (sym r.done) h
Step-Lasts E id email (terminate_others_command user_id device_id) s t r h =
    subst (Lasts id email) (sym r.done) h
Step-Lasts E id email (follow_command a b) s t r h = added r.done
  where
    added : Adds a b s t → Lasts id email t
    added (inl (f, here, is_pair, e)) = subst (Lasts id email) (sym e) h
    added (inr (f, is_a, is_b, new, e)) = subst (Lasts id email) (sym e) h
Step-Lasts E id email (unfollow_command a b) s t r h = subst (Lasts id email) (sym r.done) h
Step-Lasts E id email (delete_follower_command a b) s t r h = subst (Lasts id email) (sym r.done) h
Step-Lasts E id email (google_command p ip user_agent) s t r h = Provider-Lasts (λ x d. refl) r.1 h
Step-Lasts E id email (github_command p ip user_agent) s t r h = Provider-Lasts (λ x d. refl) r h

module _ {E : Env} (L : DbLaws E) where
  -- No two accounts have the same id, and one is confirmed: then however the commands run one
  -- after another, and whichever of them fail, there is at the end a confirmed account with its id
  -- and its e-mail, and still no two accounts have the same id.
  pub run-Lasts :
      (id email : String) (cs : List Command) (s : State)
      → Lasts id email s
      → Runs s (λ _ t. Lasts id email t) (λ _. ⊥) (run E cs)
  run-Lasts id email cs s h = run-Preserves L (Lasts id email) (Step-Lasts E id email) cs s h
