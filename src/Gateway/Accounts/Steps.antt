-- ===== src/Gateway/Accounts/Steps.antt =====
-- The use cases as the steps of one transition system on the tables and the messages.
use somegram_backend.Prelude.{
  none, subst, sym, ◌≡◌, Bool, true, false, ◌⊎◌, inl, inr, List, [], ◌∷◌,
}
use somegram_backend.Gateway.World.{Env, State, Service}
use somegram_backend.Gateway.Repositories.Users.{has_sub, has_github_id}
use somegram_backend.Gateway.Auth.Service.{Answer}
use somegram_backend.Gateway.Commands.{
  Command, registration_command, registration_confirmation_command,
  registration_email_resending_command, restore_password_command,
  restore_password_confirmation_command, login_command, logout_command, renew_tokens_command,
  terminate_device_command, terminate_others_command, follow_command, unfollow_command,
  delete_follower_command, google_command, github_command, succeeded, execute, run,
}
use somegram_backend.Gateway.Database.{DbLaws}
use somegram_backend.Gateway.Logic.{Runs, >>=-Runs, pure-Runs}
use somegram_backend.Gateway.Logic.Promises.{Promises}
use somegram_backend.Gateway.Accounts.SignUp.{Registered, registration-Implements}
use somegram_backend.Gateway.Accounts.Confirming.{
  Confirmed, Resent, registration_confirmation-Implements, registration_email_resending-Implements,
}
use somegram_backend.Gateway.Accounts.Recovery.{
  Requested, Reset, restore_password-Implements, restore_password_confirmation-Implements,
}
use somegram_backend.Gateway.Accounts.SignIn.{SignedIn, login-Implements}
use somegram_backend.Gateway.Accounts.Devices.{
  Ended, Terminated, Renewed, EndedOthers, logout-Implements, renew_tokens-Implements,
  terminate_device-Implements, terminate_others-Implements,
}
use somegram_backend.Gateway.Accounts.Follows.{
  Concerns, Adds, Removes, follow-Implements, unfollow-Implements, delete_follower-Implements,
}
use somegram_backend.Gateway.Accounts.Providers.{ProviderSignIn, google_link, github_link}
use somegram_backend.Gateway.Accounts.Providers.Profiles.{
  login_by_google-Implements, auth_with_github-Implements,
}

-- What a command that succeeds may do.
abbrev pub Step : Env → Command → State → State → Type 0
Step E (registration_command dto) s t = Registered E dto s t
Step E (registration_confirmation_command token) s t = Confirmed E token s t
Step E (registration_email_resending_command token html) s t = Resent E token html s t
Step E (restore_password_command email html) s t = Requested E email html s t
Step E (restore_password_confirmation_command code password) s t = Reset E code password s t
Step E (login_command email password user_agent ip) s t =
    SignedIn E email password user_agent ip s t
Step E (logout_command device_id) s t = Ended device_id s t
Step E (renew_tokens_command user_id device_id) s t = Renewed E user_id device_id s t
Step E (terminate_device_command user_id device_id) s t = Terminated user_id device_id s t
Step E (terminate_others_command user_id device_id) s t = EndedOthers user_id device_id s t
Step E (follow_command a b) s t = Concerns a b (Adds a b) s t
Step E (unfollow_command a b) s t = Concerns a b (Removes a b) s t
Step E (delete_follower_command a b) s t = Concerns a b (Removes b a) s t
Step E (google_command p ip user_agent) s t =
    (p.google_email_verified ≡ true)
    × ProviderSignIn E (λ d. has_sub d p.google_id) (google_link p) p.google_email none user_agent
        ip s t
Step E (github_command p ip user_agent) s t =
    ProviderSignIn E (λ d. has_github_id d p.github_id) (github_link p) p.email p.display_name
      user_agent ip s t

-- The step of the command if it has succeeded, else no change.
abbrev pub Taken : Env → Command → State → Bool → State → Type 0
Taken E c s b t = ((b ≡ true) × Step E c s t) ⊎ ((b ≡ false) × (t ≡ s))

module _ {E : Env} (L : DbLaws E) where
  succeeded-Runs :
      {C : Type 0} {s : State} {S : State → Type 0} {m : Service (Answer C)}
      → Runs s (Promises s S) (λ _. ⊥) m
      → Runs s (λ b t. ((b ≡ true) × S t) ⊎ ((b ≡ false) × (t ≡ s))) (λ _. ⊥) (succeeded m)
  unfolding succeeded
  succeeded-Runs h = >>=-Runs h λ a t r. pure-Runs _ r

  -- Each command always answers. If it answers success, it has made its step on the tables and has
  -- sent the message of the step, and no more; else the tables and the messages are as before,
  -- whichever call has failed on the way.
  pub execute-Refines : (c : Command) (s : State) → Runs s (Taken E c s) (λ _. ⊥) (execute E c)
  unfolding execute
  execute-Refines (registration_command dto) s = succeeded-Runs (registration-Implements L dto s)
  execute-Refines (registration_confirmation_command token) s =
      succeeded-Runs (registration_confirmation-Implements L token s)
  execute-Refines (registration_email_resending_command token html) s =
      succeeded-Runs (registration_email_resending-Implements L token html s)
  execute-Refines (restore_password_command email html) s =
      succeeded-Runs (restore_password-Implements L email html s)
  execute-Refines (restore_password_confirmation_command code password) s =
      succeeded-Runs (restore_password_confirmation-Implements L code password s)
  execute-Refines (login_command email password user_agent ip) s =
      succeeded-Runs (login-Implements L email password user_agent ip s)
  execute-Refines (logout_command device_id) s = succeeded-Runs (logout-Implements L device_id s)
  execute-Refines (renew_tokens_command user_id device_id) s =
      succeeded-Runs (renew_tokens-Implements L user_id device_id s)
  execute-Refines (terminate_device_command user_id device_id) s =
      succeeded-Runs (terminate_device-Implements L user_id device_id s)
  execute-Refines (terminate_others_command user_id device_id) s =
      succeeded-Runs (terminate_others-Implements L user_id device_id s)
  execute-Refines (follow_command a b) s = succeeded-Runs (follow-Implements L a b s)
  execute-Refines (unfollow_command a b) s = succeeded-Runs (unfollow-Implements L a b s)
  execute-Refines (delete_follower_command a b) s =
      succeeded-Runs (delete_follower-Implements L a b s)
  execute-Refines (google_command p ip user_agent) s =
      succeeded-Runs (login_by_google-Implements L p ip user_agent s)
  execute-Refines (github_command p ip user_agent) s =
      succeeded-Runs (auth_with_github-Implements L p ip user_agent s)

  -- What every step keeps is kept by every run of commands.
  pub run-Preserves :
      (I : State → Type 0)
      → ((c : Command) (s t : State) → Step E c s t → I s → I t)
      → (cs : List Command) (s : State) → I s
      → Runs s (λ _ t. I t) (λ _. ⊥) (run E cs)
  unfolding run
  run-Preserves I k [] s h = pure-Runs tt h
  run-Preserves I k (c ∷ cs) s h =
      >>=-Runs (execute-Refines c s) λ b t taken. run-Preserves I k cs t (after b t taken)
    where
      after : (b : Bool) (t : State) → Taken E c s b t → I t
      after b t (inl (e, step)) = k c s t step h
      after b t (inr (e, q)) = subst I (sym q) h
