-- ===== src/Gateway/Logic/Promises.antt =====
-- What a use case promises to its caller.
use somegram_backend.Prelude.{ℕ, ◌≡◌, refl, subst, Bool, true, false, ◌⊎◌, inl, inr}
use somegram_backend.Effects.{◌>>=◌, pure, attempt}
use somegram_backend.Outcome.{AppNotificationResultEnum, success, fail}
use somegram_backend.Gateway.World.{State, Service, read}
use somegram_backend.Gateway.Auth.Service.{Answer}
use somegram_backend.Gateway.Logic.{Runs, Same, quiet-Runs, pure-Runs, attempt-Runs, weaken-Runs}
use somegram_backend.Gateway.Logic.Calls.{read-Runs}

-- What a use case promises: success after the step `S`, or else nothing has changed.
abbrev pub is_success : AppNotificationResultEnum → Bool
is_success success = true
is_success _ = false

abbrev pub Promises : {C : Type 0} → State → (State → Type 0) → Answer C → State → Type 0
Promises s S a t =
    ((is_success a.app_result ≡ true) × S t) ⊎ ((is_success a.app_result ≡ false) × (t ≡ s))

abbrev pub Meets : {C : Type 0} → State → (State → Type 0) → Service (Answer C) → Type 0
Meets s S m = Runs s (Promises s S) (Same s) m

-- A use case as its caller sees it.
abbrev pub Implements : {C : Type 0} → (State → State → Type 0) → Service (Answer C) → Type 0
Implements S m = (s : State) → Runs s (Promises s (S s)) (λ _. ⊥) m

pub attempt-Implements :
    {C : Type 0} (S : State → State → Type 0) {m : Service (Answer C)}
    → ((s : State) → Meets s (S s) m)
    → Implements S (attempt m fail)
attempt-Implements S h s = attempt-Runs fail (h s) λ t e. inr (refl, e)

pub refuse-Meets :
    {C : Type 0} {s : State} {S : State → Type 0} (a : Answer C)
    → is_success a.app_result ≡ false
    → Meets s S (pure a)
refuse-Meets a h = pure-Runs a (inr (h, refl))

-- The end of a use case that has made its step.
pub succeed-Runs :
    {C : Type 0} {s t : State} {S T : State → Type 0} (a : Answer C)
    → is_success a.app_result ≡ true
    → S t
    → Runs t (Promises s S) T (pure a)
succeed-Runs a h k = pure-Runs a (inl (h, k))

pub weaken-Meets :
    {C : Type 0} {s : State} {S P : State → Type 0} {m : Service (Answer C)}
    → Meets s S m
    → ((t : State) → S t → P t)
    → Meets s P m
weaken-Meets {C} {s} {S} {P} h f = weaken-Runs h (λ a t. made a t) λ t e. e
  where
    made : (a : Answer C) (t : State) → Promises s S a t → Promises s P a t
    made a t (inl (q, k)) = inl (q, f t k)
    made a t (inr k) = inr k

-- A reading of the clock or of a UUID, and what follows it.
pub reading-Runs :
    {A B : Type 0} {s : State} {Q : B → State → Type 0} {T : State → Type 0} {f : ℕ → A}
    (k : A → Service B)
    → ((n : ℕ) → Runs s Q T (k (f n)))
    → Runs s Q T (read f >>= k)
reading-Runs {s = s} {Q} {T} {f} k h =
    quiet-Runs (read-Runs f) λ a r. subst (λ x. Runs s Q T (k x)) r.1 (h r.0)
