-- ===== src/Gateway/Accounts/Providers/Profiles.antt =====
-- The use cases of Google and of GitHub.
use somegram_backend.Prelude.{
  subst, sym, ◌≡◌, refl, ap, String, Bool, true, false, Option, none, some, All, Occurs, find,
}
use somegram_backend.Gateway.Types.{User, GoogleProfile, GithubProfile, Db}
use somegram_backend.Gateway.UserEntity.{UserEntity, registration_success_event}
use somegram_backend.Gateway.World.{Env, State, Service}
use somegram_backend.Gateway.Repositories.Users.{
  has_email, has_sub, has_github_id, with_ban, is_ban_of, is_google_of, is_github_of,
  get_user_by_google_sub, get_user_by_email_with_google_info, get_user_by_github_id,
  get_user_by_email_with_github_info,
}
use somegram_backend.Gateway.Auth.Service.{is_some}
use somegram_backend.Gateway.Auth.Providers.{
  google_user, github_user, known_user, signed_in, by_email, profile_sign_in, login_by_google,
  auth_with_github,
}
use somegram_backend.Gateway.Database.{DbLaws}
use somegram_backend.Gateway.Logic.{Runs, >>=-Runs, quiet-Runs, branch-Runs}
use somegram_backend.Gateway.Logic.Calls.{with_event}
use somegram_backend.Gateway.Logic.Promises.{
  Meets, Implements, attempt-Implements, refuse-Meets, succeed-Runs, weaken-Meets,
}
use somegram_backend.Gateway.Accounts.Rows.{Sees, entity-Runs, is_some-false, not-false}
use somegram_backend.Gateway.Accounts.SignIn.{Started, start_session-Runs}
use somegram_backend.Gateway.Accounts.Providers.{
  linked_user, Joined, ProviderSignIn, known, linked, created, google_link, github_link,
}
use somegram_backend.Gateway.Accounts.Providers.Joining.{
  google_user-Runs, github_user-Runs, handle_user-Runs,
}

module _ {E : Env} (L : DbLaws E) where
  known-Meets :
      {s : State} {belongs : Db → User → Bool} {link : String → Db → Db} {email : String}
      {first_name : Option String} (user_agent ip : String) (u : User)
      → Occurs u s.db.users
      → belongs s.db u ≡ true
      → Meets s
          (ProviderSignIn E belongs link email first_name user_agent ip s)
          (known_user E user_agent ip (with_ban s.db u))
  unfolding known_user
  known-Meets {s} user_agent ip u here has =
      branch-Runs _ (λ _. refuse-Meets _ refl)
        λ free. >>=-Runs (start_session-Runs L u.id user_agent ip refl) λ tokens t started.
          succeed-Runs _ refl
            (known u tokens here has (is_some-false (find (is_ban_of u.id) s.db.bans) free) started)

  linked-Meets :
      {s : State} {belongs : Db → User → Bool} (link : String → Db → Db) (email : String)
      (first_name : Option String) (user : Option User → Service User) (user_agent ip : String)
      (u : User)
      → Runs s
          (Joined E link email first_name s (some u))
          (λ t. t.published ≡ s.published)
          (user (some u))
      → Occurs u s.db.users
      → has_email email u ≡ true
      → find (is_ban_of u.id) s.db.bans ≡ none
      → Meets s
          (ProviderSignIn E belongs link email first_name user_agent ip s)
          (signed_in E (user (some u)) user_agent ip)
  unfolding signed_in
  linked-Meets {s} link email first_name user user_agent ip u h here has free =
      >>=-Runs (handle_user-Runs L link email first_name (some u) _ user_agent ip h)
        λ tokens t (x, r, v, (ex, er), started, sent). succeed-Runs _ refl (
          linked u tokens v here has free
            (subst (λ y. Started E y.id ip user_agent tokens (linked_user link u s) v) ex
              (subst (λ q. Started E x.id ip user_agent tokens q v) er started))
            (subst (λ y. t ≡ with_event (registration_success_event y) v) ex sent))

  created-Meets :
      {s : State} {belongs : Db → User → Bool} (link : String → Db → Db) (email : String)
      (first_name : Option String) (user : Option User → Service User) (user_agent ip : String)
      → Runs s (Joined E link email first_name s none) (λ t. t.published ≡ s.published) (user none)
      → All (λ u. has_email email u ≡ false) s.db.users
      → Meets s
          (ProviderSignIn E belongs link email first_name user_agent ip s)
          (signed_in E (user none) user_agent ip)
  unfolding signed_in
  created-Meets {s} link email first_name user user_agent ip h free =
      >>=-Runs (handle_user-Runs L link email first_name none _ user_agent ip h)
        λ tokens t (x, r, v, (id, uuid, date, ex, new_id, er), started, sent). succeed-Runs _ refl (
          created id uuid date tokens v free new_id x ex
            (subst (λ q. Started E x.id ip user_agent tokens q v) er started) sent)

  -- The user of the account, else the one with the e-mail, else a new one.
  profile-Meets :
      {A : Type 0} {s : State} (belongs : Db → User → Bool) (link : String → Db → Db)
      (email : String) (first_name : Option String) (user : Option User → Service User)
      (user_agent ip : String) (account : Db → User → Option A) (o : Option UserEntity)
      (with_info : Option (UserEntity × Option A))
      → ((x : Option User)
          → Runs s (Joined E link email first_name s x) (λ t. t.published ≡ s.published) (user x))
      → Sees (belongs s.db) (with_ban s.db) s.db.users o
      → Sees (has_email email) (λ u. (with_ban s.db u, account s.db u)) s.db.users with_info
      → Meets s
          (ProviderSignIn E belongs link email first_name user_agent ip s)
          (profile_sign_in E user user_agent ip o with_info)
  unfolding profile_sign_in by_email
  profile-Meets {s = s} belongs link email first_name user user_agent ip account (some x) i h
        (u, here, has, e) sees =
      subst
        (λ y.
          Meets s (ProviderSignIn E belongs link email first_name user_agent ip s)
            (known_user E user_agent ip y))
        (sym e) (known-Meets user_agent ip u here has)
  profile-Meets belongs link email first_name user user_agent ip account none none h unknown free =
      created-Meets link email first_name user user_agent ip (h none) free
  profile-Meets {s = s} belongs link email first_name user user_agent ip account none (some (x, a))
        h unknown (u, here, has, e) =
      branch-Runs _ (λ _. refuse-Meets _ refl)
        λ alone.
          branch-Runs _ (λ _. refuse-Meets _ refl)
            λ free.
              subst
                (λ y.
                  Meets s (ProviderSignIn E belongs link email first_name user_agent ip s)
                    (signed_in E (user (some y)) user_agent ip))
                (sym (ap (λ y. y.0.user) e))
                (linked-Meets link email first_name user user_agent ip u (h (some u)) here has (
                  is_some-false (find (is_ban_of u.id) s.db.bans)
                    (subst (λ y. is_some y.0.user_ban_info ≡ false) e free)))

  -- Sign-in with Google that answers success has a verified e-mail and is of a user who is not
  -- banned: the one that the account belongs to, else the one with the e-mail, who is confirmed, or
  -- a new one. Else it has changed nothing. It always answers.
  pub login_by_google-Implements :
      (p : GoogleProfile) (ip user_agent : String)
      → Implements
          (λ s t.
            (p.google_email_verified ≡ true)
            × ProviderSignIn E
                (λ d. has_sub d p.google_id)
                (google_link p)
                p.google_email
                none
                user_agent
                ip
                s
                t)
          (login_by_google E p ip user_agent)
  unfolding login_by_google get_user_by_google_sub get_user_by_email_with_google_info
  login_by_google-Implements p ip user_agent = attempt-Implements _ λ s.
      branch-Runs _ (λ _. refuse-Meets _ refl)
        λ _.
          branch-Runs _ (λ _. refuse-Meets _ refl)
            λ verified.
              quiet-Runs (entity-Runs L (λ d. has_sub d p.google_id) with_ban (λ d. d.users) refl)
                λ o so.
                  quiet-Runs
                    (entity-Runs L (λ _. has_email p.google_email)
                      (λ d u. (with_ban d u, find (is_google_of u.id) d.google_accounts))
                      (λ d. d.users) refl)
                    λ i si.
                      weaken-Meets
                        (profile-Meets (λ d. has_sub d p.google_id) (google_link p) p.google_email
                          none (google_user E p) user_agent ip
                          (λ d u. find (is_google_of u.id) d.google_accounts) o i
                          (google_user-Runs L p) so si)
                        λ t h. (not-false _ verified, h)

  -- Sign-in with GitHub that answers success is of a user who is not banned: the one that the
  -- account belongs to, else the one with the e-mail, who is confirmed, or a new one. Else it has
  -- changed nothing. It always answers.
  pub auth_with_github-Implements :
      (p : GithubProfile) (ip user_agent : String)
      → Implements
          (ProviderSignIn E
            (λ d. has_github_id d p.github_id)
            (github_link p)
            p.email
            p.display_name
            user_agent
            ip)
          (auth_with_github E p ip user_agent)
  unfolding auth_with_github get_user_by_github_id get_user_by_email_with_github_info
  auth_with_github-Implements p ip user_agent = attempt-Implements _ λ s.
      branch-Runs _ (λ _. refuse-Meets _ refl)
        λ _.
          quiet-Runs (entity-Runs L (λ d. has_github_id d p.github_id) with_ban (λ d. d.users) refl)
            λ o so.
              quiet-Runs
                (entity-Runs L (λ _. has_email p.email)
                  (λ d u. (with_ban d u, find (is_github_of u.id) d.github_accounts)) (λ d. d.users)
                  refl)
                λ i si.
                  profile-Meets (λ d. has_github_id d p.github_id) (github_link p) p.email
                    p.display_name (github_user E p) user_agent ip
                    (λ d u. find (is_github_of u.id) d.github_accounts) o i (github_user-Runs L p)
                    so si
