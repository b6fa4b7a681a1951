-- ===== src/Prelude/Lists.antt =====
-- Lists over the native numbers, and what holds of every item.
use Prim.Native.Nat.{ℕ, suc}
use mathlib.Core.Path.{◌≡◌}
use mathlib.Core.Logic.{◌⊎◌, inl, inr}
use mathlib.Core.List.{List, [], ◌∷◌, ◌++◌}
use mathlib.Core.Bool.{Bool, true, false}
use mathlib.Core.Option.{Option, none, some}
use somegram_backend.Prelude.Tests.{if◌then◌else◌}

module _ {ℓ} {A : Type ℓ} where
  abbrev pub length : List A → ℕ
  length [] = 0
  length (x ∷ xs) = suc (length xs)

-- `P` holds of every item.
abbrev pub All {ℓ κ} : {A : Type ℓ} → (A → Type κ) → List A → Type κ
All P [] = Unit
All P (x ∷ xs) = P x × All P xs

-- JavaScript's `find`: the first item that passes the test.
abbrev pub find {ℓ} : {A : Type ℓ} → (A → Bool) → List A → Option A
find p [] = none
find p (x ∷ xs) = let rest = find p xs in elim (p x) [ true ↦ some x | false ↦ rest ]

-- The items that do not pass the test, and the list in which those that pass are changed.
abbrev pub without {ℓ} : {A : Type ℓ} → (A → Bool) → List A → List A
without p [] = []
without p (x ∷ xs) = let rest = without p xs in elim (p x) [ true ↦ rest | false ↦ x ∷ rest ]

abbrev pub update_where {ℓ} : {A : Type ℓ} → (A → Bool) → (A → A) → List A → List A
update_where p f [] = []
update_where p f (x ∷ xs) = (if p x then f x else x) ∷ update_where p f xs

-- `a` is an item of the list.
abbrev pub Occurs : {A : Type 0} → A → List A → Type 0
Occurs a [] = ⊥
Occurs a (x ∷ xs) = (a ≡ x) ⊎ Occurs a xs

module _ {A : Type 0} where
  pub Occurs-append : (a : A) (xs ys : List A) → Occurs a (xs ++ ys) → Occurs a xs ⊎ Occurs a ys
  Occurs-append a [] ys h = inr h
  Occurs-append a (x ∷ xs) ys (inl e) = inl (inl e)
  Occurs-append a (x ∷ xs) ys (inr h) = elim (Occurs-append a xs ys h) [
    | inl l ↦ inl (inr l)
    | inr r ↦ inr r
  ]

  pub Occurs-left : (a : A) (xs ys : List A) → Occurs a xs → Occurs a (xs ++ ys)
  Occurs-left a [] ys h = absurd h
  Occurs-left a (x ∷ xs) ys (inl e) = inl e
  Occurs-left a (x ∷ xs) ys (inr h) = inr (Occurs-left a xs ys h)

  pub Occurs-right : (a : A) (xs ys : List A) → Occurs a ys → Occurs a (xs ++ ys)
  Occurs-right a [] ys h = h
  Occurs-right a (x ∷ xs) ys h = inr (Occurs-right a xs ys h)
