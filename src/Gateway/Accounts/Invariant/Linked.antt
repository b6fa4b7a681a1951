-- ===== src/Gateway/Accounts/Invariant/Linked.antt =====
-- Sign-in with a provider, of whose accounts the owners are confirmed.
use somegram_backend.Prelude.{
  find, find-Occurs, ◌≡◌, refl, sym, ap, subst, String, Bool, true, false, List, ◌∷◌, Option, none,
  some, inl, Occurs, update_where, Occurs-update, changed_if, arith, if◌then◌else◌,
}
use somegram_backend.Gateway.Text.{same, same→eq, same_refl}
use somegram_backend.Gateway.Types.{
  Event, GoogleProfile, GithubProfile, UserGoogleAccount, UserGithubAccount, User, Db,
}
use somegram_backend.Gateway.World.{Env, State}
use somegram_backend.Gateway.Repositories.Users.{
  has_id, has_sub, has_github_id, is_google_of, is_github_of, is_some_with, confirmed, new_user,
}
use somegram_backend.Gateway.Auth.Providers.{google_account, github_account}
use somegram_backend.Gateway.Logic.Calls.{with_event}
use somegram_backend.Gateway.Accounts.Providers.{
  ProviderSignIn, known, linked, created, confirmed_if, google_link, github_link,
}
use somegram_backend.Gateway.Accounts.Invariant.{
  HasConfirmed, IsSound, HasConfirmed-more, HasConfirmed-update, cons-IsOwned, users-IsSound,
  Started-IsSound,
}

-- The user of a provider's account is confirmed before the session starts.
pub confirmed_if-HasConfirmed :
    (b : Bool) (u : User) (l : List User)
    → u.is_confirmed ≡ b
    → Occurs u l
    → HasConfirmed (confirmed_if b u.id l) u.id
unfolding confirmed
confirmed_if-HasConfirmed true u l e here = (u, here, refl, e)
confirmed_if-HasConfirmed false u l e here = (
  confirmed u,
  subst (λ v. Occurs v (update_where (has_id u.id) confirmed l)) chosen
      (Occurs-update (has_id u.id) confirmed u l here),
  refl,
  refl,
)
  where
    chosen : changed_if (has_id u.id) confirmed u ≡ confirmed u
    chosen = ap (λ b. if b then confirmed u else u) (same_refl u.id)

pub confirmed_if-keeps :
    (b : Bool) (id owner : String) (l : List User)
    → HasConfirmed l owner
    → HasConfirmed (confirmed_if b id l) owner
unfolding confirmed
confirmed_if-keeps true id owner l h = h
confirmed_if-keeps false id owner l h =
    HasConfirmed-update (has_id id) confirmed (λ u. refl) (λ u e. refl) l owner h

-- What a provider must make of its account: it belongs to the user, and its owners are confirmed.
pub record IsLink (belongs : Db → User → Bool) (link : String → Db → Db) : Type 0 where
  link_sound :
      (id : String) (s : State)
      → HasConfirmed s.db.users id
      → IsSound s
      → IsSound (record s { db = link id s.db })
  link_users : (id : String) (d : Db) → (link id d).users ≡ d.users
  owner_confirmed :
      (s : State) (u : User) → IsSound s → belongs s.db u ≡ true → HasConfirmed s.db.users u.id

pub told : (event : Event) {s : State} → IsSound s → IsSound (with_event event s)
told event h = record { sessions = h.sessions; google = h.google; github = h.github }

pub ProviderSignIn-IsSound :
    {E : Env} {belongs : Db → User → Bool} {link : String → Db → Db} {email : String}
    {first_name : Option String} {user_agent ip : String} {s t : State}
    → IsLink belongs link
    → ProviderSignIn E belongs link email first_name user_agent ip s t
    → IsSound s
    → IsSound t
unfolding new_user
ProviderSignIn-IsSound {s = s} k (known u tokens here has free started) h =
    Started-IsSound started (k.owner_confirmed s u h has) h
ProviderSignIn-IsSound {link = link} {s = s} k (linked u tokens v here has free started e) h =
    let is_confirmed = confirmed_if-HasConfirmed u.is_confirmed u s.db.users refl here in
    subst IsSound (sym e) (
      told _ (
        Started-IsSound started
          (subst (λ l. HasConfirmed l u.id) (sym (k.link_users u.id _)) is_confirmed)
          (k.link_sound u.id _ is_confirmed
            (users-IsSound _ s (λ id. confirmed_if-keeps u.is_confirmed u.id id s.db.users) h))))
ProviderSignIn-IsSound {s = s} k (created id uuid date tokens v n f u eu started e) h =
    let is_confirmed : HasConfirmed (u ∷ s.db.users) u.id =
      (u, inl refl, refl, ap (λ x. x.is_confirmed) eu) in
    subst IsSound (sym e) (
      told _ (
        Started-IsSound started
          (subst (λ l. HasConfirmed l u.id) (sym (k.link_users u.id _)) is_confirmed)
          (k.link_sound u.id _ is_confirmed
            (users-IsSound _ s (λ id. HasConfirmed-more u s.db.users id) h))))

pub google_link-IsLink : (p : GoogleProfile) → IsLink (λ d. has_sub d p.google_id) (google_link p)
unfolding google_account
google_link-IsLink p = record {
  link_sound = λ id s owner h. record {
    sessions = h.sessions;
    google = cons-IsOwned _ _ _ _ owner h.google;
    github = h.github;
  };
  link_users = λ id d. refl;
  owner_confirmed =
      λ s u h has. owner s u h (find (is_google_of u.id) s.db.google_accounts) refl has;
}
  where
    owner :
        (s : State) (u : User)
        → IsSound s
        → (o : Option UserGoogleAccount) → find (is_google_of u.id) s.db.google_accounts ≡ o
        → is_some_with (λ g. same g.sub p.google_id) o ≡ true
        → HasConfirmed s.db.users u.id
    owner s u h none e has = absurd (ground arith)
    owner s u h (some g) e has =
        let (here, is_theirs) = find-Occurs (is_google_of u.id) s.db.google_accounts g e in
        subst (HasConfirmed s.db.users) (same→eq g.user_id u.id is_theirs) (h.google g here)

pub github_link-IsLink :
    (p : GithubProfile) → IsLink (λ d. has_github_id d p.github_id) (github_link p)
unfolding github_account
github_link-IsLink p = record {
  link_sound = λ id s owner h. record {
    sessions = h.sessions;
    google = h.google;
    github = cons-IsOwned _ _ _ _ owner h.github;
  };
  link_users = λ id d. refl;
  owner_confirmed =
      λ s u h has. owner s u h (find (is_github_of u.id) s.db.github_accounts) refl has;
}
  where
    owner :
        (s : State) (u : User)
        → IsSound s
        → (o : Option UserGithubAccount) → find (is_github_of u.id) s.db.github_accounts ≡ o
        → is_some_with (λ g. same g.github_id p.github_id) o ≡ true
        → HasConfirmed s.db.users u.id
    owner s u h none e has = absurd (ground arith)
    owner s u h (some g) e has =
        let (here, is_theirs) = find-Occurs (is_github_of u.id) s.db.github_accounts g e in
        subst (HasConfirmed s.db.users) (same→eq g.user_id u.id is_theirs) (h.github g here)
