-- ===== src/Effects.antt =====
-- Asynchronous methods as actions on a world: an `await` that rejects and a `throw` end the
-- method, and what was written before stays written. `attempt` is the `try { … } catch (e) { … }`
-- of the use cases, whose `catch` only logs and returns a fixed answer.
pub mod Rules
use somegram_backend.Prelude.{Bool, true, false}

pub data Result (A : Type 0) : Type 0 where
  ok : A → Result A
  thrown : Result A

abbrev pub Action : Type 0 → Type 0 → Type 0
Action W A = W → Result A × W

-- What follows an action that has ended.
abbrev pub continue : {W A B : Type 0} → Result A × W → (A → Action W B) → Result B × W
continue (ok a, w) f = f a w
continue (thrown, w) f = (thrown, w)

abbrev pub recover : {W A : Type 0} → Result A × W → A → Result A × W
recover (ok a, w) answer = (ok a, w)
recover (thrown, w) answer = (ok answer, w)

module _ {W : Type 0} where
  infixl 5 ◌>>=◌ ◌>>◌
  unfoldable pub ◌>>=◌ : {A B : Type 0} → Action W A → (A → Action W B) → Action W B
  ◌>>=◌ m f w = continue (m w) f

  abbrev pub ◌>>◌ : {A B : Type 0} → Action W A → Action W B → Action W B
  m >> k = m >>= λ _. k

  unfoldable pub pure : {A : Type 0} → A → Action W A
  pure a w = (ok a, w)

  unfoldable pub attempt : {A : Type 0} → Action W A → A → Action W A
  attempt m answer w = recover (m w) answer

  -- `if (b) { … } else { … }`
  unfoldable pub branch : {A : Type 0} → Bool → Action W A → Action W A → Action W A
  branch true m n = m
  branch false m n = n
