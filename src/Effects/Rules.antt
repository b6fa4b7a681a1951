-- ===== src/Effects/Rules.antt =====
-- How a property of the outcome of an action is put together from those of its parts.
use somegram_backend.Prelude.{◌≡◌, refl, Bool, true, false}
use somegram_backend.Effects.{Result, ok, thrown, Action, continue, recover, branch}

module _ {W : Type 0} where
  -- `I` holds of the world however the action has ended, and `Q` of its answer.
  abbrev pub Ends : {A : Type 0} → (W → Type 0) → (A → W → Type 0) → Result A × W → Type 0
  Ends I Q (ok a, w) = I w × Q a w
  Ends I Q (thrown, w) = I w

  pub Ends-continue :
      {A B : Type 0} (I : W → Type 0) (R : A → W → Type 0) (Q : B → W → Type 0) (r : Result A × W)
      (f : A → Action W B)
      → Ends I R r
      → ((a : A) (w : W) → I w → R a w → Ends I Q (f a w))
      → Ends I Q (continue r f)
  Ends-continue I R Q (ok a, w) f h k = k a w h.0 h.1
  Ends-continue I R Q (thrown, w) f h k = h

  pub Ends-recover :
      {A : Type 0} (I : W → Type 0) (Q : A → W → Type 0) (r : Result A × W) (answer : A)
      → Ends I Q r
      → ((w : W) → I w → Q answer w)
      → Ends I Q (recover r answer)
  Ends-recover I Q (ok a, w) answer h k = h
  Ends-recover I Q (thrown, w) answer h k = (h, k w h)

  pub Ends-world :
      {A : Type 0} (I : W → Type 0) (Q : A → W → Type 0) (r : Result A × W) → Ends I Q r → I r.1
  Ends-world I Q (ok a, w) h = h.0
  Ends-world I Q (thrown, w) h = h

  pub Ends-branch :
      {A : Type 0} (I : W → Type 0) (Q : A → W → Type 0) (b : Bool) (m n : Action W A) (w : W)
      → (b ≡ true → Ends I Q (m w))
      → (b ≡ false → Ends I Q (n w))
      → Ends I Q (branch b m n w)
  unfolding branch
  Ends-branch I Q true m n w h k = h refl
  Ends-branch I Q false m n w h k = k refl
