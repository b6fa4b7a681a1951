-- ===== src/Gateway/Accounts/Invariant/Kept.antt =====
-- The steps of the use cases, and their runs.
use somegram_backend.Prelude.{ℕ, refl, sym, subst, String, List, ◌∷◌, Option, none, some, inl, inr}
use somegram_backend.Gateway.Types.{Event, RegistrationBodyInputDto, UserResetPassword, UserFollow}
use somegram_backend.Gateway.World.{Env, State}
use somegram_backend.Gateway.Repositories.Users.{has_id, confirmed, with_password}
use somegram_backend.Gateway.Repositories.Devices.{renew_session}
use somegram_backend.Gateway.Repositories.Follows.{put_follows}
use somegram_backend.Gateway.Auth.Registration.{handle_user}
use somegram_backend.Gateway.Accounts.Recovery.{code_stored}
use somegram_backend.Gateway.Commands.{
  Command, registration_command, registration_confirmation_command,
  registration_email_resending_command, restore_password_command,
  restore_password_confirmation_command, login_command, logout_command, renew_tokens_command,
  terminate_device_command, terminate_others_command, follow_command, unfollow_command,
  delete_follower_command, google_command, github_command, run,
}
use somegram_backend.Gateway.Database.{DbLaws}
use somegram_backend.Gateway.Logic.{Runs}
use somegram_backend.Gateway.Logic.Calls.{with_event}
use somegram_backend.Gateway.Accounts.SignUp.{Registered}
use somegram_backend.Gateway.Accounts.Follows.{Adds}
use somegram_backend.Gateway.Accounts.Steps.{Step, run-Preserves}
use somegram_backend.Gateway.Accounts.Invariant.{
  IsSound, HasConfirmed-more, HasConfirmed-update, without-IsOwned, update-IsOwned, users-IsSound,
  sessions-IsSound, room-IsSound, Started-IsSound,
}
use somegram_backend.Gateway.Accounts.Invariant.Linked.{
  ProviderSignIn-IsSound, google_link-IsLink, github_link-IsLink,
}

Registered-IsSound :
    {E : Env} {dto : RegistrationBodyInputDto} {s t : State}
    → Registered E dto s t
    → IsSound s
    → IsSound t
Registered-IsSound {s = s} r h =
    let e = r.account.entered in
    let k = room-IsSound (handle_user r.by_email r.by_username) s h in
    subst IsSound (sym e) (record {
      sessions = λ x here. HasConfirmed-more _ _ _ (k.sessions x here);
      google = λ x here. HasConfirmed-more _ _ _ (k.google x here);
      github = λ x here. HasConfirmed-more _ _ _ (k.github x here);
    })

-- Who follows whom has no part in it.
follows-IsSound :
    (l : List UserFollow) (s : State) → IsSound s → IsSound (record s { db = put_follows s.db l })
follows-IsSound l s h = record { sessions = h.sessions; google = h.google; github = h.github }

Adds-IsSound : {a b : String} {s t : State} → Adds a b s t → IsSound s → IsSound t
Adds-IsSound (inl (f, here, is_pair, e)) h = subst IsSound (sym e) h
Adds-IsSound {s = s} (inr (f, is_a, is_b, new, e)) h =
    subst IsSound (sym e) (follows-IsSound (f ∷ s.db.follows) s h)

Step-IsSound : (E : Env) (c : Command) (s t : State) → Step E c s t → IsSound s → IsSound t
unfolding confirmed with_password renew_session
Step-IsSound E (registration_command dto) s t r h = Registered-IsSound r h
Step-IsSound E (registration_confirmation_command token) s t r h = subst IsSound (sym r.done) (
    let k =
      users-IsSound _ s
        (λ id.
          HasConfirmed-update (has_id r.user.id) confirmed (λ u. refl) (λ u e. refl) s.db.users id)
        h in
    record { sessions = k.sessions; google = k.google; github = k.github })
Step-IsSound E (registration_email_resending_command token html) s t r h =
    subst IsSound (sym r.done)
      (record { sessions = h.sessions; google = h.google; github = h.github })
Step-IsSound E (restore_password_command email html) s t r h =
    subst IsSound (sym r.done) (stored r.user.id _ _ _ r.last)
  where
    stored :
        (id code : String) (date expired_at : ℕ) (last : Option UserResetPassword) {e : Event}
        → IsSound (with_event e (record s { db = code_stored id code date expired_at last s.db }))
    stored id code date expired_at none = record {
      sessions = h.sessions;
      google = h.google;
      github = h.github;
    }
    stored id code date expired_at (some last) = record {
      sessions = h.sessions;
      google = h.google;
      github = h.github;
    }
Step-IsSound E (restore_password_confirmation_command code password) s t r h =
    subst IsSound (sym r.done) (
      let k =
        users-IsSound _ s
          (λ id.
            HasConfirmed-update (has_id r.user.id) (with_password (some r.hash_password))
              (λ u. refl) (λ u e. e) s.db.users id)
          h in
      record {
        sessions = without-IsOwned _ _ _ _ k.sessions;
        google = k.google;
        github = k.github;
      })
Step-IsSound E (login_command email password user_agent ip) s t r h =
    Started-IsSound r.started (r.user, r.is_user, refl, r.is_confirmed) h
Step-IsSound E (logout_command device_id) s t r h =
    subst IsSound (sym r.done) (sessions-IsSound _ s (without-IsOwned _ _ _ _ h.sessions) h)
Step-IsSound E (renew_tokens_command user_id device_id) s t r h =
    subst IsSound (sym r.done) (
      sessions-IsSound _ s (update-IsOwned _ _ (renew_session r.date) _ _ (λ x. refl) h.sessions) h)
Step-IsSound E (terminate_device_command user_id device_id) s t r h =
    subst IsSound (sym r.done) (sessions-IsSound _ s (without-IsOwned _ _ _ _ h.sessions) h)
Step-IsSound E (terminate_others_command user_id device_id) s t r h =
    subst IsSound (sym r.done) (sessions-IsSound _ s (without-IsOwned _ _ _ _ h.sessions) h)
Step-IsSound E (follow_command a b) s t r h = Adds-IsSound r.done h
Step-IsSound E (unfollow_command a b) s t r h = subst IsSound (sym r.done) (follows-IsSound _ s h)
Step-IsSound E (delete_follower_command a b) s t r h =
    subst IsSound (sym r.done) (follows-IsSound _ s h)
Step-IsSound E (google_command p ip user_agent) s t r h =
    ProviderSignIn-IsSound (google_link-IsLink p) r.1 h
Step-IsSound E (github_command p ip user_agent) s t r h =
    ProviderSignIn-IsSound (github_link-IsLink p) r h

module _ {E : Env} (L : DbLaws E) where
  -- However the commands run one after another, and whichever of them fail: if each session and
  -- each account of Google or GitHub is of a confirmed user at the start, so it is at the end.
  pub run-IsSound :
      (cs : List Command) (s : State) → IsSound s → Runs s (λ _ t. IsSound t) (λ _. ⊥) (run E cs)
  run-IsSound cs s h = run-Preserves L IsSound (Step-IsSound E) cs s h
