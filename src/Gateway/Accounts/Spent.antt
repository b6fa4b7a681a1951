-- ===== src/Gateway/Accounts/Spent.antt =====
-- What can no longer be done once a use case has answered success: a token that is spent, and
-- sessions that have ended.
use somegram_backend.Prelude.{
  refl, ◌≡◌, sym, ap, subst, ◌∙◌, String, true, false, inl, inr, Occurs, find-Occurs, without,
  Occurs-without⁻, arith,
}
use somegram_backend.Gateway.Text.{same, same→eq, differ→ne}
use somegram_backend.Gateway.Types.{User, UserConfirmation, Session}
use somegram_backend.Effects.{Result, ok, thrown}
use somegram_backend.Gateway.World.{World, Env, State, Service}
use somegram_backend.Gateway.Repositories.Users.{
  has_code, is_confirmation_of, is_session_of, is_some_with,
}
use somegram_backend.Gateway.Repositories.Codes.{is_token}
use somegram_backend.Gateway.Auth.Service.{Answer}
use somegram_backend.Gateway.Auth.Registration.{registration_confirmation}
use somegram_backend.Gateway.Auth.Passwords.{restore_password_confirmation}
use somegram_backend.Gateway.Auth.Sessions.{renew_tokens}
use somegram_backend.Gateway.Database.{DbLaws}
use somegram_backend.Gateway.Logic.{Post, Runs, weaken-Runs}
use somegram_backend.Gateway.Logic.Promises.{Promises, Implements, is_success}
use somegram_backend.Gateway.Accounts.Confirming.{
  Confirmed, Holds, registration_confirmation-Implements,
}
use somegram_backend.Gateway.Accounts.Recovery.{Reset, restore_password_confirmation-Implements}
use somegram_backend.Gateway.Accounts.Devices.{Renewed, renew_tokens-Implements}
use somegram_backend.Gateway.Accounts.Emails.{IsApart, IsApart-eq}

-- Whatever the use case answers in a state, it is not success.
abbrev pub Refuses : {C : Type 0} → State → Service (Answer C) → Type 0
Refuses s m = Runs s (λ a t. (is_success a.app_result ≡ false) × (t ≡ s)) (λ _. ⊥) m

-- What holds of the state after success.
abbrev pub OnSuccess : {C : Type 0} → (State → Type 0) → Answer C → State → Type 0
OnSuccess P a t = is_success a.app_result ≡ true → P t

-- From a state before the use case to an answer of it.
pub answer-Post :
    {C : Type 0} {s : State} {Q : Answer C → State → Type 0} {m : Service (Answer C)}
    → Runs s Q (λ _. ⊥) m
    → (w : World) (a : Answer C) → w.state ≡ s
    → (m w).0 ≡ ok a
    → Q a (m w).1.state
answer-Post {C} {Q = Q} {m} h w a e answered = from (m w) (h.runs w e) answered
  where
    ok_eq : (b a : Answer C) → ok b ≡ ok a → b ≡ a
    ok_eq b a q = ground arith

    from : (r : Result (Answer C) × World) → Post Q (λ _. ⊥) r → r.0 ≡ ok a → Q a r.1.state
    from (ok b, v) k q = subst (λ x. Q x v.state) (ok_eq b a q) k
    from (thrown, v) k q = absurd k

pub success-Post :
    {C : Type 0} {s : State} {P : State → Type 0} {m : Service (Answer C)}
    → Runs s (OnSuccess P) (λ _. ⊥) m
    → (w : World) (a : Answer C) → w.state ≡ s
    → (m w).0 ≡ ok a
    → is_success a.app_result ≡ true
    → P (m w).1.state
success-Post h w a e answered success = answer-Post h w a e answered success

module _ {C : Type 0} (S : State → State → Type 0) {m : Service (Answer C)} where
  pub Implements-OnSuccess :
      {P : State → Type 0} (s : State)
      → Implements S m
      → ((t : State) → S s t → P t)
      → Runs s (OnSuccess P) (λ _. ⊥) m
  Implements-OnSuccess {P} s h k = weaken-Runs (h s) (λ a t. on a t) λ t e. e
    where
      on : (a : Answer C) (t : State) → Promises s (S s) a t → OnSuccess P a t
      on a t (inl (e, step)) _ = k t step
      on a t (inr (e, q)) f = absurd (ground arith)

  Implements-Refuses : (s : State) → Implements S m → ((t : State) → ¬ S s t) → Refuses s m
  Implements-Refuses s h k = weaken-Runs (h s) (λ a t. on a t) λ t e. e
    where
      on :
          (a : Answer C) (t : State)
          → Promises s (S s) a t
          → (is_success a.app_result ≡ false) × (t ≡ s)
      on a t (inl (e, step)) = absurd (k t step)
      on a t (inr r) = r

-- A token that a user holds is that of a confirmation in the table.
Holds-token :
    {token : String} {s : State} {u : User} {c : UserConfirmation}
    → Holds token s u c
    → Occurs c s.db.confirmations × (same c.token token ≡ true)
Holds-token {token} {s} {u} {c} h = (
  (find-Occurs (is_confirmation_of u.id) s.db.confirmations c h.is_own).0,
  subst (λ o. is_some_with (λ x. same x.token token) o ≡ true) h.is_own h.carries,
)

Confirmed-spent :
    {E : Env} {token : String} {s t v : State} → Confirmed E token s t → ¬ Confirmed E token t v
Confirmed-spent {token = token} {s} {t} r again =
    let (here, is_it) = Holds-token again.holds in
    let (there, was_it) = Holds-token r.holds in
    let (k, other) =
      Occurs-without⁻ (is_token r.confirmation.token) again.confirmation s.db.confirmations
        (subst (λ x. Occurs again.confirmation x.db.confirmations) r.done here) in
    differ→ne _ _ other (same→eq _ _ is_it ∙ sym (same→eq _ _ was_it))

module _ {E : Env} (L : DbLaws E) where
  -- A confirmation that answers success has spent its token: right after it, the same token is
  -- refused and changes nothing.
  pub registration_confirmation-IsSpent :
      (token : String) (w : World) (a : Answer (Unit {0}))
      → (registration_confirmation E token w).0 ≡ ok a
      → is_success a.app_result ≡ true
      → Refuses (registration_confirmation E token w).1.state (registration_confirmation E token)
  registration_confirmation-IsSpent token w a answered success =
      let promise = registration_confirmation-Implements L token in
      success-Post
        (Implements-OnSuccess (Confirmed E token) w.state promise
          λ t r. Implements-Refuses (Confirmed E token) t promise λ v. Confirmed-spent r)
        w a refl answered success

  -- The sessions of a user, of whose devices none is used twice.
  renewal_refused :
      {t : State} (s : State) (u : User) (x : Session)
      → IsApart (λ y. y.device_id) s.db.sessions
      → Occurs x s.db.sessions
      → x.user_id ≡ u.id
      → t.db.sessions ≡ without (is_session_of u.id) s.db.sessions
      → Refuses t (renew_tokens E x.user_id x.device_id)
  renewal_refused {t} s u x apart here theirs gone =
      Implements-Refuses (Renewed E x.user_id x.device_id) t
        (renew_tokens-Implements L x.user_id x.device_id)
        λ v r.
          let (there, other) =
            Occurs-without⁻ (is_session_of u.id) r.session s.db.sessions
              (subst (Occurs r.session) gone r.is_session) in
          let is_it =
            IsApart-eq (λ y. y.device_id) s.db.sessions apart r.session x there here
              (same→eq _ _ r.is_on_device) in
          differ→ne _ _ other (ap (λ y. y.user_id) is_it ∙ theirs)

  -- A new password that is answered success has signed its user out everywhere: where no two
  -- sessions are on one device, the tokens of each session that the user had before are renewed no
  -- more.
  pub restore_password_confirmation-SignsOut :
      (code password : String) (w : World) (a : Answer (Unit {0}))
      → IsApart (λ y. y.device_id) w.state.db.sessions
      → (restore_password_confirmation E code password w).0 ≡ ok a
      → is_success a.app_result ≡ true
      → (u : User) × Occurs u w.state.db.users
        × (has_code w.state.db code u ≡ true)
        × ((x : Session)
            → Occurs x w.state.db.sessions
            → x.user_id ≡ u.id
            → Refuses
                (restore_password_confirmation E code password w).1.state
                (renew_tokens E x.user_id x.device_id))
  restore_password_confirmation-SignsOut code password w a apart answered success =
      success-Post
        {P = λ t.
          (u : User) × Occurs u w.state.db.users
          × (has_code w.state.db code u ≡ true)
          × ((x : Session)
              → Occurs x w.state.db.sessions
              → x.user_id ≡ u.id
              → Refuses t (renew_tokens E x.user_id x.device_id))}
        (Implements-OnSuccess (Reset E code password) w.state
          (restore_password_confirmation-Implements L code password)
          λ t r. (
            r.user,
            r.is_user,
            r.carries,
            λ x here theirs.
                renewal_refused w.state r.user x apart here theirs (ap (λ y. y.db.sessions) r.done),
          ))
        w a refl answered success
