-- ===== src/Gateway/Accounts/Providers/Joining.antt =====
-- The user who signs in gets the account of the provider.
use somegram_backend.Prelude.{
  ◌≡◌, refl, ◌∙◌, ap, String, Bool, true, false, not, ◌∷◌, Option, none, some, All,
}
use somegram_backend.Effects.{pure, branch}
use somegram_backend.Gateway.Text.{same}
use somegram_backend.Gateway.Types.{User, GoogleProfile, GithubProfile, Db}
use somegram_backend.Gateway.UserEntity.{registration_success_event}
use somegram_backend.Gateway.World.{Env, State, Service}
use somegram_backend.Gateway.Repositories.Users.{
  has_id, same_id, put_users, new_user, confirmed, create_user_by_google, create_user_by_github,
  confirm_user,
}
use somegram_backend.Gateway.Repositories.Codes.{
  same_google, same_github, put_google, put_github, add_google_info_to_user,
  add_github_info_to_user,
}
use somegram_backend.Gateway.Auth.Service.{generate_uniq_user_name}
use somegram_backend.Gateway.Auth.Providers.{
  google_account, github_account, confirm_if_needed, google_user, github_user, handle_user,
}
use somegram_backend.Gateway.Database.{DbLaws}
use somegram_backend.Gateway.Logic.{Runs, Same, >>=-Runs, pure-Runs}
use somegram_backend.Gateway.Logic.Calls.{with_event, publish-Runs, transactional-Runs}
use somegram_backend.Gateway.Logic.Promises.{reading-Runs}
use somegram_backend.Gateway.Accounts.Rows.{with_table, create-Runs, update-Runs}
use somegram_backend.Gateway.Accounts.SignIn.{Started, start_session-Runs}
use somegram_backend.Gateway.Accounts.Providers.{confirmed_if, Joined, google_link, github_link}

module _ {E : Env} (L : DbLaws E) where
  pub confirm_if-Runs :
      {s : State} {T : State → Type 0} (b : Bool) (id : String)
      → T s
      → Runs s
          (λ _ t. t ≡ with_table put_users (confirmed_if b id s.db.users) s)
          T
          (branch (not b) (confirm_user E id) (pure tt))
  unfolding branch confirm_user
  confirm_if-Runs true id h = pure-Runs tt refl
  confirm_if-Runs false id h = update-Runs L put_users (λ d. d.users) (has_id id) confirmed h

  pub google_user-Runs :
      {s : State} (p : GoogleProfile) (o : Option User)
      → Runs s
          (Joined E (google_link p) p.google_email none s o)
          (λ t. t.published ≡ s.published)
          (google_user E p o)
  unfolding google_user add_google_info_to_user create_user_by_google confirm_if_needed new_user
  google_user-Runs {s} p (some u) =
      >>=-Runs (create-Runs L put_google (λ d. d.google_accounts) same_google _ refl) λ _ t r.
        >>=-Runs (confirm_if-Runs u.is_confirmed u.id (ap (λ t. t.published) r.0)) λ _ v e.
          pure-Runs _ (
            refl,
            e ∙ ap (λ t. with_table put_users (confirmed_if u.is_confirmed u.id t.db.users) t) r.0,
          )
  google_user-Runs {s} p none = reading-Runs _ λ n. reading-Runs _ λ i.
      >>=-Runs
        {R = λ u t.
          (id : String) × (u
            ≡ new_user id (generate_uniq_user_name (E.random_uuid i) p.google_email) p.google_email
                none (E.clock n) true none)
          × All (λ v. same id v.id ≡ false) s.db.users
          × (t ≡ with_table put_users (u ∷ s.db.users) s)}
        (reading-Runs _ λ j.
          >>=-Runs (create-Runs L put_users (λ d. d.users) same_id _ refl)
            λ _ t r. pure-Runs _ (E.random_uuid j, refl, r.1, r.0))
        λ u t (id, eu, new_id, e).
          >>=-Runs
            (create-Runs L put_google (λ d. d.google_accounts) same_google _
              (ap (λ t. t.published) e))
            λ _ v r. pure-Runs _ (
              id,
              E.random_uuid i,
              E.clock n,
              eu,
              new_id,
              r.0
                  ∙ ap (λ t. with_table put_google (google_account p u.id ∷ t.db.google_accounts) t)
                      e,
            )

  pub github_user-Runs :
      {s : State} (p : GithubProfile) (o : Option User)
      → Runs s
          (Joined E (github_link p) p.email p.display_name s o)
          (λ t. t.published ≡ s.published)
          (github_user E p o)
  unfolding github_user add_github_info_to_user create_user_by_github confirm_if_needed new_user
  github_user-Runs {s} p (some u) =
      >>=-Runs (create-Runs L put_github (λ d. d.github_accounts) same_github _ refl) λ _ t r.
        >>=-Runs (confirm_if-Runs u.is_confirmed u.id (ap (λ t. t.published) r.0)) λ _ v e.
          pure-Runs _ (
            refl,
            e ∙ ap (λ t. with_table put_users (confirmed_if u.is_confirmed u.id t.db.users) t) r.0,
          )
  github_user-Runs {s} p none = reading-Runs _ λ n. reading-Runs _ λ i.
      >>=-Runs
        {R = λ u t.
          (id : String) × (u
            ≡ new_user id (generate_uniq_user_name (E.random_uuid i) p.email) p.email none
                (E.clock n) true p.display_name)
          × All (λ v. same id v.id ≡ false) s.db.users
          × (t ≡ with_table put_users (u ∷ s.db.users) s)}
        (reading-Runs _ λ j.
          >>=-Runs (create-Runs L put_users (λ d. d.users) same_id _ refl)
            λ _ t r. pure-Runs _ (E.random_uuid j, refl, r.1, r.0))
        λ u t (id, eu, new_id, e).
          >>=-Runs
            (create-Runs L put_github (λ d. d.github_accounts) same_github _
              (ap (λ t. t.published) e))
            λ _ v r. pure-Runs _ (
              id,
              E.random_uuid i,
              E.clock n,
              eu,
              new_id,
              r.0
                  ∙ ap (λ t. with_table put_github (github_account p u.id ∷ t.db.github_accounts) t)
                      e,
            )

  -- `handleUser`: the account, the session and the message, or nothing at all.
  pub handle_user-Runs :
      {s : State} (link : String → Db → Db) (email : String) (first_name : Option String)
      (o : Option User) (user : Service User) (user_agent ip : String)
      → Runs s (Joined E link email first_name s o) (λ t. t.published ≡ s.published) user
      → Runs s
          (λ tokens t.
            (u : User) × (r : State) × (v : State) × Joined E link email first_name s o u r
            × Started E u.id ip user_agent tokens r v
            × (t ≡ with_event (registration_success_event u) v))
          (Same s)
          (handle_user E user user_agent ip)
  unfolding handle_user
  handle_user-Runs {s} link email first_name o user user_agent ip h = transactional-Runs L refl (
      >>=-Runs h λ u r joined.
        >>=-Runs (start_session-Runs L u.id user_agent ip (quiet o u r joined)) λ tokens v started.
          >>=-Runs (publish-Runs _) λ _ t sent. pure-Runs _ (u, r, v, joined, started, sent))
    where
      quiet :
          (o : Option User) (u : User) (r : State)
          → Joined E link email first_name s o u r
          → r.published ≡ s.published
      quiet none u r (id, uuid, date, eu, new_id, e) = ap (λ t. t.published) e
      quiet (some x) u r (eu, e) = ap (λ t. t.published) e
