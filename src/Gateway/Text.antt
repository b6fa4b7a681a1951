-- ===== src/Gateway/Text.antt =====
-- What the gateway uses of JavaScript's texts: `===`, `replaceAll('-', '')`, `slice(0, n)` and
-- `split('@')[0]`, by characters.
use Prim.Native.Char.{Char, code}
use Prim.Native.String.{String}
use text.Mathlib.Text.{◌==◌}
use text.Mathlib.TextEquality.{eq_iff}
use text.Mathlib.TextPositions.{eq_refl}
use somegram_backend.Prelude.{ℕ, zero, suc, ◌+◌, ◌≤◌, ◌≡◌, refl, ◌≢◌, Bool, true, false, arith}
use somegram_backend.Prelude

abbrev pub same : String → String → Bool
same s t = s == t

pub same→eq : (s t : String) → same s t ≡ true → s ≡ t
same→eq s t h = ground (arith, eq_iff s t)

pub same_refl : (s : String) → same s s ≡ true
same_refl s = eq_refl s

pub eq→same : (s t : String) → s ≡ t → same s t ≡ true
eq→same s t h = ground (arith, eq_iff s t)

pub differ→ne : (s t : String) → same s t ≡ false → s ≢ t
differ→ne s t h e = ground (arith, eq_iff s t)

abbrev pub is_blank : String → Bool
is_blank String.[] = true
is_blank (String.◌∷◌ c s) = false

-- The number of characters.
abbrev pub text_length : String → ℕ
text_length String.[] = 0
text_length (String.◌∷◌ c s) = suc (text_length s)

abbrev pub slice : ℕ → String → String
slice zero s = String.[]
slice (suc n) String.[] = String.[]
slice (suc n) (String.◌∷◌ c s) = String.◌∷◌ c (slice n s)

abbrev drop_if : Bool → Char → String → String
drop_if true c s = s
drop_if false c s = String.◌∷◌ c s

unfoldable pub without_dashes : String → String
without_dashes String.[] = String.[]
without_dashes (String.◌∷◌ c s) = drop_if (Prelude.◌==◌ (code c) 45) c (without_dashes s)

-- The part before the first `@`, or the whole text.
abbrev stop_if : Bool → Char → String → String
stop_if true c s = String.[]
stop_if false c s = String.◌∷◌ c s

unfoldable pub before_at : String → String
before_at String.[] = String.[]
before_at (String.◌∷◌ c s) = stop_if (Prelude.◌==◌ (code c) 64) c (before_at s)

abbrev pub join : String → String → String
join String.[] t = t
join (String.◌∷◌ c s) t = String.◌∷◌ c (join s t)

pub length-slice : (n : ℕ) (s : String) → text_length (slice n s) ≤ n
length-slice zero s = omega arith
length-slice (suc n) String.[] = omega arith
length-slice (suc n) (String.◌∷◌ c s) = omega (arith, length-slice n s)

-- A cut that falls into the first part does not see the second.
pub slice-join : (n : ℕ) (s t : String) → n ≤ text_length s → slice n (join s t) ≡ slice n s
slice-join zero s t h = refl
slice-join (suc n) String.[] t h = absurd (omega arith)
slice-join (suc n) (String.◌∷◌ c s) t h = cc (slice-join n s t (omega arith))
