-- ===== src/Prelude/Updates.antt =====
-- What holds of the items of a list from which some are taken, or in which some are changed.
use mathlib.Core.Path.{◌≡◌, refl, sym, ap, subst, ◌∙◌}
use mathlib.Core.Logic.{inl, inr}
use mathlib.Core.List.{List, [], ◌∷◌}
use mathlib.Core.Bool.{Bool, true, false}
use mathlib.Core.Option.{none, some}
use native.Mathlib.Omega.{arith}
use somegram_backend.Prelude.Tests.{if◌then◌else◌}
use somegram_backend.Prelude.Lists.{All, find, Occurs, without, update_where}

module _ {A : Type 0} (p : A → Bool) where
  pub Occurs-without : (a : A) (l : List A) → Occurs a l → p a ≡ false → Occurs a (without p l)
  Occurs-without a [] k h = absurd k
  Occurs-without a (x ∷ l) k h = on_test (p x) refl k (λ o. Occurs-without a l o h)
    where
      on_test :
          (b : Bool)
          → p x ≡ b
          → Occurs a (x ∷ l)
          → (Occurs a l → Occurs a (without p l))
          → Occurs a (elim b [ true ↦ without p l | false ↦ x ∷ without p l ])
      on_test true e (inl q) rec = absurd (ground arith)
      on_test true e (inr o) rec = rec o
      on_test false e (inl q) rec = inl q
      on_test false e (inr o) rec = inr (rec o)

  pub Occurs-without⁻ : (a : A) (l : List A) → Occurs a (without p l) → Occurs a l × (p a ≡ false)
  Occurs-without⁻ a [] h = absurd h
  Occurs-without⁻ a (x ∷ l) h = on_test (p x) refl h (Occurs-without⁻ a l)
    where
      on_test :
          (b : Bool)
          → p x ≡ b
          → Occurs a (elim b [ true ↦ without p l | false ↦ x ∷ without p l ])
          → (Occurs a (without p l) → Occurs a l × (p a ≡ false))
          → Occurs a (x ∷ l) × (p a ≡ false)
      on_test true e h rec = let r = rec h in (inr r.0, r.1)
      on_test false e (inl q) rec = (inl q, ap p q ∙ e)
      on_test false e (inr h) rec = let r = rec h in (inr r.0, r.1)

module _ {A : Type 0} where
  pub All→Occurs : (P : A → Type 0) (l : List A) → All P l → (a : A) → Occurs a l → P a
  All→Occurs P [] h a k = absurd k
  All→Occurs P (x ∷ l) h a (inl e) = subst P (sym e) h.0
  All→Occurs P (x ∷ l) h a (inr k) = All→Occurs P l h.1 a k

  pub Occurs→All : (P : A → Type 0) (l : List A) → ((a : A) → Occurs a l → P a) → All P l
  Occurs→All P [] k = tt
  Occurs→All P (x ∷ l) k = (k x (inl refl), Occurs→All P l λ a h. k a (inr h))

module _ {A : Type 0} (p : A → Bool) (f : A → A) where
  abbrev pub changed_if : A → A
  changed_if a = if p a then f a else a

  pub Occurs-update : (a : A) (l : List A) → Occurs a l → Occurs (changed_if a) (update_where p f l)
  Occurs-update a [] h = absurd h
  Occurs-update a (x ∷ l) (inl e) = inl (ap changed_if e)
  Occurs-update a (x ∷ l) (inr h) = inr (Occurs-update a l h)

  pub Occurs-update⁻ :
      (b : A) (l : List A)
      → Occurs b (update_where p f l)
      → (a : A) × Occurs a l × (b ≡ changed_if a)
  Occurs-update⁻ b [] h = absurd h
  Occurs-update⁻ b (x ∷ l) (inl e) = (x, inl refl, e)
  Occurs-update⁻ b (x ∷ l) (inr h) = let r = Occurs-update⁻ b l h in (r.0, inr r.1, r.2)

pub find-Occurs :
    {A : Type 0} (p : A → Bool) (l : List A) (a : A) → find p l ≡ some a → Occurs a l × (p a ≡ true)
find-Occurs p [] a e = absurd (ground arith)
find-Occurs p (x ∷ l) a e = on_test (p x) refl e (find-Occurs p l a)
  where
    on_test :
        (b : Bool)
        → p x ≡ b
        → elim b [ true ↦ some x | false ↦ find p l ] ≡ some a
        → (find p l ≡ some a → Occurs a l × (p a ≡ true))
        → Occurs a (x ∷ l) × (p a ≡ true)
    on_test true t q rec = (inl (ground arith), cc)
    on_test false t q rec = let r = rec q in (inr r.0, r.1)

-- What was not found does not pass the test.
pub find-none :
    {A : Type 0} (p : A → Bool) (l : List A) → find p l ≡ none → (a : A) → Occurs a l → p a ≡ false
find-none p [] e a h = absurd h
find-none {A} p (x ∷ l) e a h = on_test (p x) refl e h (find-none p l)
  where
    on_test :
        (b : Bool)
        → p x ≡ b
        → elim b [ true ↦ some x | false ↦ find p l ] ≡ none
        → Occurs a (x ∷ l)
        → (find p l ≡ none → (a : A) → Occurs a l → p a ≡ false)
        → p a ≡ false
    on_test true q e h rec = absurd (ground arith)
    on_test false q e (inl k) rec = ap p k ∙ q
    on_test false q e (inr k) rec = rec e a k
