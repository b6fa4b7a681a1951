-- ===== src/Gateway/Accounts/Invariant.antt =====
-- What holds of the tables however the use cases have run.
pub mod Linked
pub mod Kept
use somegram_backend.Prelude.{
  find, find-Occurs, ℕ, ◌≡◌, refl, sym, ap, subst, ◌∙◌, String, Bool, true, false, List, ◌∷◌,
  Option, none, some, ◌⊎◌, inl, inr, Occurs, without, update_where, Occurs-without, Occurs-without⁻,
  Occurs-update, Occurs-update⁻, changed_if, arith, if◌then◌else◌,
}
use somegram_backend.Gateway.Text.{same, same→eq, same_refl}
use somegram_backend.Gateway.Types.{
  Event, RegistrationBodyInputDto, GoogleProfile, GithubProfile, UserGoogleAccount,
  UserGithubAccount, UserResetPassword, TokensPair, User, Session, Db,
}
use somegram_backend.Gateway.World.{Env, State}
use somegram_backend.Gateway.Repositories.Users.{
  has_id, has_sub, has_github_id, is_google_of, is_github_of, is_some_with, put_users, cascade,
  is_session_of, confirmed, with_password, new_user,
}
use somegram_backend.Gateway.Repositories.Devices.{
  put_sessions, is_device, is_one_of, renew_session,
}
use somegram_backend.Gateway.Auth.Registration.{handle_user}
use somegram_backend.Gateway.Auth.Providers.{google_account, github_account}
use somegram_backend.Gateway.Accounts.Recovery.{code_stored}
use somegram_backend.Gateway.Commands.{
  Command, registration_command, registration_confirmation_command,
  registration_email_resending_command, restore_password_command,
  restore_password_confirmation_command, login_command, logout_command, renew_tokens_command,
  terminate_device_command, terminate_others_command, google_command, github_command, run,
}
use somegram_backend.Gateway.Database.{DbLaws}
use somegram_backend.Gateway.Logic.{Runs}
use somegram_backend.Gateway.Logic.Calls.{with_event}
use somegram_backend.Gateway.Accounts.SignUp.{room, Registered}
use somegram_backend.Gateway.Accounts.SignIn.{Started}
use somegram_backend.Gateway.Accounts.Providers.{
  ProviderSignIn, known, linked, created, confirmed_if, google_link, github_link,
}
use somegram_backend.Gateway.Accounts.Steps.{Step, run-Preserves}

-- A confirmed user with the id.
abbrev pub HasConfirmed : List User → String → Type 0
HasConfirmed l id = (u : User) × Occurs u l × (u.id ≡ id) × (u.is_confirmed ≡ true)

-- Each row belongs to a confirmed user.
abbrev pub IsOwned : {A : Type 0} → (A → String) → List User → List A → Type 0
IsOwned owner users rows = (x : _) → Occurs x rows → HasConfirmed users (owner x)

-- Sessions and accounts of Google and GitHub belong to confirmed users.
pub record IsSound (s : State) : Type 0 where
  pub sessions : IsOwned (λ x. x.user_id) s.db.users s.db.sessions
  pub google : IsOwned (λ x. x.user_id) s.db.users s.db.google_accounts
  pub github : IsOwned (λ x. x.user_id) s.db.users s.db.github_accounts

HasConfirmed-more :
    (u : User) (l : List User) (id : String) → HasConfirmed l id → HasConfirmed (u ∷ l) id
HasConfirmed-more u l id (v, here, is_id, is_confirmed) = (v, inr here, is_id, is_confirmed)

-- An update that keeps the ids and takes no confirmation back.
HasConfirmed-update :
    (p : User → Bool) (f : User → User)
    → ((u : User) → (f u).id ≡ u.id)
    → ((u : User) → u.is_confirmed ≡ true → (f u).is_confirmed ≡ true)
    → (l : List User) (id : String) → HasConfirmed l id
    → HasConfirmed (update_where p f l) id
HasConfirmed-update p f same_id stays l id (u, here, is_id, is_confirmed) =
    let k = kept (p u) in (changed_if p f u, Occurs-update p f u l here, k.0, k.1)
  where
    kept :
        (b : Bool) → ((if b then f u else u).id ≡ id) × ((if b then f u else u).is_confirmed ≡ true)
    kept true = (same_id u ∙ is_id, stays u is_confirmed)
    kept false = (is_id, is_confirmed)

module _ {A : Type 0} (owner : A → String) where
  without-IsOwned :
      (p : A → Bool) (users : List User) (rows : List A)
      → IsOwned owner users rows
      → IsOwned owner users (without p rows)
  without-IsOwned p users rows h x here = h x (Occurs-without⁻ p x rows here).0

  cons-IsOwned :
      (users : List User) (y : A) (rows : List A)
      → HasConfirmed users (owner y)
      → IsOwned owner users rows
      → IsOwned owner users (y ∷ rows)
  cons-IsOwned users y rows theirs h x (inl e) =
      subst (HasConfirmed users) (sym (ap owner e)) theirs
  cons-IsOwned users y rows theirs h x (inr k) = h x k

  update-IsOwned :
      (p : A → Bool) (f : A → A) (users : List User) (rows : List A)
      → ((x : A) → owner (f x) ≡ owner x)
      → IsOwned owner users rows
      → IsOwned owner users (update_where p f rows)
  update-IsOwned p f users rows same_owner h x here =
      let (y, there, e) = Occurs-update⁻ p f x rows here in
      subst (HasConfirmed users) (sym (ap owner e ∙ kept y (p y))) (h y there)
    where
      kept : (y : A) (b : Bool) → owner (if b then f y else y) ≡ owner y
      kept y true = same_owner y
      kept y false = refl

  -- An account that makes room takes its rows with it.
  dropped-IsOwned :
      (id : String) (users : List User) (rows : List A)
      → IsOwned owner users rows
      → IsOwned owner (without (has_id id) users) (without (λ x. same (owner x) id) rows)
  dropped-IsOwned id users rows h x here =
      let (there, other) = Occurs-without⁻ (λ x. same (owner x) id) x rows here in
      let (u, is_user, is_id, is_confirmed) = h x there in
      (
        u,
        Occurs-without (has_id id) u users is_user
            (subst (λ y. same y id ≡ false) (sym is_id) other),
        is_id,
        is_confirmed,
      )

-- A state with other users among whom the confirmed ones still are.
users-IsSound :
    (users : List User) (s : State)
    → ((id : String) → HasConfirmed s.db.users id → HasConfirmed users id)
    → IsSound s
    → IsSound (record s { db = put_users s.db users })
users-IsSound users s k h = record {
  sessions = λ x here. k _ (h.sessions x here);
  google = λ x here. k _ (h.google x here);
  github = λ x here. k _ (h.github x here);
}

sessions-IsSound :
    (sessions : List Session) (s : State)
    → IsOwned (λ x. x.user_id) s.db.users sessions
    → IsSound s
    → IsSound (record s { db = put_sessions s.db sessions })
sessions-IsSound sessions s k h = record { sessions = k; google = h.google; github = h.github }

room-IsSound :
    (dropped : Option String) (s : State)
    → IsSound s
    → IsSound (record s { db = room dropped s.db })
unfolding cascade
room-IsSound none s h = record { sessions = h.sessions; google = h.google; github = h.github }
room-IsSound (some id) s h = record {
  sessions = dropped-IsOwned _ id _ _ h.sessions;
  google = dropped-IsOwned _ id _ _ h.google;
  github = dropped-IsOwned _ id _ _ h.github;
}

Started-IsSound :
    {E : Env} {id ip user_agent : String} {tokens : TokensPair} {s t : State}
    → Started E id ip user_agent tokens s t
    → HasConfirmed s.db.users id
    → IsSound s
    → IsSound t
Started-IsSound {s = s} started owner h =
    subst IsSound (sym started.done)
      (sessions-IsSound _ s (cons-IsOwned _ _ _ _ owner h.sessions) h)
