-- ===== src/Gateway/Accounts/Rotation.antt =====
-- A renewal of the tokens, and the guard of the refresh tokens after it.
use mathlib.Core.Bool.{false≢true}
use somegram_backend.Prelude.{
  ℕ, ◌*◌, ◌≡◌, refl, sym, ap, subst, ◌∙◌, String, Bool, true, false, ◌⊎◌, inl, inr, Option, none,
  some, Occurs, Occurs-update⁻, if◌then◌else◌, update_where, ==→eq, arith, List,
}
use somegram_backend.Effects.{ok}
use somegram_backend.Gateway.Types.{Session, RefreshPayload, TokensPair}
use somegram_backend.Gateway.UserEntity.{UserEntity}
use somegram_backend.Gateway.World.{Env, State, World, Service}
use somegram_backend.Gateway.Repositories.Users.{has_id, with_ban, get_user_by_id}
use somegram_backend.Gateway.Repositories.Devices.{is_device, renew_session, get_device_by_id}
use somegram_backend.Gateway.Auth.Service.{Answer}
use somegram_backend.Gateway.Auth.Guards.{if_allowed, if_current, validate_refresh}
use somegram_backend.Gateway.Auth.Sessions.{renew_tokens}
use somegram_backend.Gateway.Database.{DbLaws}
use somegram_backend.Gateway.Logic.{Runs, quiet-Runs, pure-Runs, branch-Runs, weaken-Runs}
use somegram_backend.Gateway.Logic.Calls.{Yields, query-Runs}
use somegram_backend.Gateway.Logic.Promises.{is_success}
use somegram_backend.Gateway.Accounts.Rows.{entity-Runs, not-false}
use somegram_backend.Gateway.Accounts.Devices.{Renews, renew_tokens-Runs}
use somegram_backend.Gateway.Accounts.Spent.{answer-Post}

-- Every session on the device has the date.
abbrev IsDated : String → ℕ → State → Type 0
IsDated device_id date s =
    (x : Session)
    → Occurs x s.db.sessions
    → is_device device_id x ≡ true
    → x.last_active_date ≡ date

renewed-IsDated :
    (device_id : String) (date : ℕ) (l : List Session) (x : Session)
    → Occurs x (update_where (is_device device_id) (renew_session date) l)
    → is_device device_id x ≡ true
    → x.last_active_date ≡ date
unfolding renew_session
renewed-IsDated device_id date l x here on =
    let (y, there, e) = Occurs-update⁻ (is_device device_id) (renew_session date) x l here in
    at y (is_device device_id y) refl e
  where
    at :
        (y : Session) (b : Bool)
        → is_device device_id y ≡ b
        → x ≡ (if b then renew_session date y else y)
        → x.last_active_date ≡ date
    at y true q e = ap (λ z. z.last_active_date) e
    at y false q e = absurd (false≢true (sym q ∙ ap (λ z. is_device device_id z) (sym e) ∙ on))

-- The guard has refused the token, or the token has the date.
abbrev AcceptsOnly : ℕ → RefreshPayload → Option RefreshPayload → State → Type 0
AcceptsOnly date payload o t = (o ≡ none) ⊎ (payload.iat * 1000 ≡ date)

if_allowed-Runs :
    {A : Type 0} {s : State} {Q : Option A → State → Type 0} {T : State → Type 0}
    {next : Service (Option A)} (o : Option UserEntity)
    → Q none s
    → Runs s Q T next
    → Runs s Q T (if_allowed next o)
unfolding if_allowed
if_allowed-Runs none h k = pure-Runs none h
if_allowed-Runs (some u) h k = branch-Runs _ (λ _. pure-Runs none h) λ _. k

if_current-Runs :
    {s : State} {T : State → Type 0} (date : ℕ) (payload : RefreshPayload) (o : Option Session)
    → ((x : Session) → o ≡ some x → x.last_active_date ≡ date)
    → Runs s (AcceptsOnly date payload) T (if_current payload o)
unfolding if_current
if_current-Runs date payload none k = pure-Runs none (inl refl)
if_current-Runs date payload (some x) k =
    branch-Runs _ (λ _. pure-Runs none (inl refl))
      λ same_date.
        let e = ==→eq x.last_active_date (payload.iat * 1000) (not-false _ same_date) in
        branch-Runs _ (λ _. pure-Runs none (inl refl))
          λ _. pure-Runs (some payload) (inr (sym e ∙ k x refl))

module _ {E : Env} (L : DbLaws E) where
  guard-Runs :
      {s : State} (date : ℕ) (payload : RefreshPayload)
      → IsDated payload.device_id date s
      → Runs s (AcceptsOnly date payload) (λ _. Unit {0}) (validate_refresh E payload)
  unfolding validate_refresh get_user_by_id get_device_by_id
  guard-Runs {s} date payload dated =
      quiet-Runs (entity-Runs L (λ _. has_id payload.user_id) with_ban (λ d. d.users) tt) λ user _.
        if_allowed-Runs user (inl refl) (
          quiet-Runs (query-Runs _ tt) λ o (n, seen). if_current-Runs date payload o λ x e.
            let (here, on) =
              L.find_first_rows n (is_device payload.device_id) s.db.sessions (some x)
                (seen ∙ ap some e) in
            dated x here on)

  -- A renewal of the tokens that answers success answers new tokens, the refresh token signed for
  -- the user and the device. Right after it the guard accepts no refresh token for the device but
  -- with the date of the one that was answered.
  pub renew_tokens-Rotates :
      (user_id device_id : String) (w : World) (a : Answer TokensPair)
      → (renew_tokens E user_id device_id w).0 ≡ ok a
      → is_success a.app_result ≡ true
      → (tokens : TokensPair) × (issued : RefreshPayload) × (a.payload ≡ some tokens)
        × Yields (λ n. E.sign_access n user_id) tokens.access_token
        × Yields (λ n. E.sign_refresh n user_id device_id) tokens.refresh_token
        × Yields (λ n. E.verify_refresh n tokens.refresh_token) issued
        × ((owner : String) (iat : ℕ)
            → Runs
                (renew_tokens E user_id device_id w).1.state
                (λ o _. (o ≡ none) ⊎ (iat ≡ issued.iat))
                (λ _. Unit {0})
                (validate_refresh E (record { user_id = owner; device_id = device_id; iat = iat })))
  renew_tokens-Rotates user_id device_id w a answered success =
      on_renewed (answer-Post (renew_tokens-Runs L user_id device_id w.state) w a refl answered)
    where
      dated :
          {date : ℕ} (o : Option RefreshPayload) (iat issued : ℕ)
          → date ≡ issued * 1000
          → (o ≡ none) ⊎ (iat * 1000 ≡ date)
          → (o ≡ none) ⊎ (iat ≡ issued)
      dated o iat issued e (inl q) = inl q
      dated o iat issued e (inr q) = inr (omega (arith, e, q))

      on_renewed :
          {t : State}
          → Renews L user_id device_id w.state a t
          → (tokens : TokensPair) × (issued : RefreshPayload) × (a.payload ≡ some tokens)
            × Yields (λ n. E.sign_access n user_id) tokens.access_token
            × Yields (λ n. E.sign_refresh n user_id device_id) tokens.refresh_token
            × Yields (λ n. E.verify_refresh n tokens.refresh_token) issued
            × ((owner : String) (iat : ℕ)
                → Runs t
                    (λ o _. (o ≡ none) ⊎ (iat ≡ issued.iat))
                    (λ _. Unit {0})
                    (validate_refresh E
                      (record { user_id = owner; device_id = device_id; iat = iat })))
      on_renewed (inr (refused, e)) = absurd (false≢true (sym refused ∙ success))
      on_renewed (inl (e, (r, same))) = (
        r.tokens,
        r.issued.payload,
        same,
        r.issued.has_access,
        r.issued.signed,
        r.issued.accepted,
        λ owner iat.
            weaken-Runs
              (guard-Runs r.date (record { user_id = owner; device_id = device_id; iat = iat })
                λ x here on.
                  renewed-IsDated device_id r.date w.state.db.sessions x
                    (subst (λ y. Occurs x y.db.sessions) r.done here) on)
              (λ o v h. dated o iat r.issued.payload.iat (r.issued.is_date) h) λ v h. h,
      )
