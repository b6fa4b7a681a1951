-- ===== src/Gateway/Logic.antt =====
-- How what a method does to the state is put together from what its parts do.
pub mod Total
pub mod Calls
pub mod Promises
use somegram_backend.Prelude.{
  ℕ, ◌≡◌, refl, sym, ◌∙◌, ap, subst, Bool, true, false, List, ◌∷◌, Option, none, some, ◌⊎◌, inl,
  inr,
}
use somegram_backend.Effects.{Result, ok, thrown, ◌>>=◌, pure, attempt, branch, continue, recover}
use somegram_backend.Outcome.{AppNotificationResultEnum, success, fail, AppNotificationResult}
use somegram_backend.Gateway.Types.{Db, Event}
use somegram_backend.Gateway.World.{
  Env, State, World, Service, answer, query, changed, rows_put, change, called, call, read, publish,
  required, settle, transactional,
}
use somegram_backend.Gateway.Auth.Service.{Answer, found}
use somegram_backend.Gateway.Database.{DbLaws}

-- `Q` holds of an answer and the state with it, `T` of the state when the method has thrown.
abbrev pub Post : {A : Type 0} → (A → State → Type 0) → (State → Type 0) → Result A × World → Type 0
Post Q T (ok a, w) = Q a w.state
Post Q T (thrown, w) = T w.state

-- What holds once `m` has run from the state `s`.
pub record Runs {A : Type 0} (s : State) (Q : A → State → Type 0) (T : State → Type 0)
    (m : Service A) : Type 0 where
  pub runs : (w : World) → w.state ≡ s → Post Q T (m w)

-- Nothing has changed.
abbrev pub Same : State → State → Type 0
Same s t = t ≡ s

-- The answer meets `R` and nothing has changed.
abbrev pub Reads : {A : Type 0} → State → (A → Type 0) → A → State → Type 0
Reads s R a t = (t ≡ s) × R a

module _ {A B : Type 0} where
  continue-Post :
      (R : A → State → Type 0) (Q : B → State → Type 0) (T : State → Type 0) (r : Result A × World)
      (f : A → Service B)
      → Post R T r
      → ((a : A) (t : State) → R a t → Runs t Q T (f a))
      → Post Q T (continue r f)
  continue-Post R Q T (ok a, v) f h k = (k a v.state h).runs v refl
  continue-Post R Q T (thrown, v) f h k = h

  pub >>=-Runs :
      {s : State} {R : A → State → Type 0} {Q : B → State → Type 0} {T : State → Type 0}
      {m : Service A} {f : A → Service B}
      → Runs s R T m
      → ((a : A) (t : State) → R a t → Runs t Q T (f a))
      → Runs s Q T (m >>= f)
  unfolding ◌>>=◌
  >>=-Runs {R = R} {Q} {T} {m} {f} h k = record {
    runs = λ w e. continue-Post R Q T (m w) f (h.runs w e) k;
  }

  -- A part that changes nothing.
  pub quiet-Runs :
      {s : State} {R : A → Type 0} {Q : B → State → Type 0} {T : State → Type 0} {m : Service A}
      {f : A → Service B}
      → Runs s (Reads s R) T m
      → ((a : A) → R a → Runs s Q T (f a))
      → Runs s Q T (m >>= f)
  quiet-Runs {s} h k = >>=-Runs h λ a t r. record { runs = λ w e. (k a r.1).runs w (e ∙ r.0) }

module _ {A : Type 0} where
  pub pure-Runs :
      {s : State} {Q : A → State → Type 0} {T : State → Type 0} (a : A)
      → Q a s
      → Runs s Q T (pure a)
  unfolding pure
  pure-Runs {Q = Q} a h = record { runs = λ w e. subst (Q a) (sym e) h }

  pub branch-Runs :
      {s : State} {Q : A → State → Type 0} {T : State → Type 0} (b : Bool) {m n : Service A}
      → (b ≡ true → Runs s Q T m)
      → (b ≡ false → Runs s Q T n)
      → Runs s Q T (branch b m n)
  unfolding branch
  branch-Runs true h k = h refl
  branch-Runs false h k = k refl

  recover-Post :
      (Q : A → State → Type 0) (T : State → Type 0) (r : Result A × World) (a : A)
      → Post Q T r
      → ((t : State) → T t → Q a t)
      → Post Q (λ _. ⊥) (recover r a)
  recover-Post Q T (ok b, v) a h k = h
  recover-Post Q T (thrown, v) a h k = k v.state h

  -- A method with a `catch` never throws.
  pub attempt-Runs :
      {s : State} {Q : A → State → Type 0} {T : State → Type 0} {m : Service A} (a : A)
      → Runs s Q T m
      → ((t : State) → T t → Q a t)
      → Runs s Q (λ _. ⊥) (attempt m a)
  unfolding attempt
  attempt-Runs {Q = Q} {T} {m} a h k = record {
    runs = λ w e. recover-Post Q T (m w) a (h.runs w e) k;
  }

  weaken-Post :
      (Q P : A → State → Type 0) (T U : State → Type 0) (r : Result A × World)
      → Post Q T r
      → ((a : A) (t : State) → Q a t → P a t)
      → ((t : State) → T t → U t)
      → Post P U r
  weaken-Post Q P T U (ok a, v) h f g = f a v.state h
  weaken-Post Q P T U (thrown, v) h f g = g v.state h

  pub weaken-Runs :
      {s : State} {Q P : A → State → Type 0} {T U : State → Type 0} {m : Service A}
      → Runs s Q T m
      → ((a : A) (t : State) → Q a t → P a t)
      → ((t : State) → T t → U t)
      → Runs s P U m
  weaken-Runs {Q = Q} {P} {T} {U} {m} h f g = record {
    runs = λ w e. weaken-Post Q P T U (m w) (h.runs w e) f g;
  }

pub found-Runs :
    {A C : Type 0} {s : State} {P : Answer C → State → Type 0} {T : State → Type 0}
    (absent : Answer C) {next : A → Service (Answer C)} (o : Option A)
    → (o ≡ none → P absent s)
    → ((a : A) → o ≡ some a → Runs s P T (next a))
    → Runs s P T (found absent next o)
unfolding found
found-Runs absent none h k = pure-Runs absent (h refl)
found-Runs absent (some x) h k = k x refl
