-- ===== src/Gateway/Database.antt =====
-- What the gateway relies on in Prisma, in transactions and in JSON web tokens.
use somegram_backend.Prelude.{
  ℕ, ◌≡◌, ◌↔◌, Bool, true, false, List, ◌∷◌, Option, none, some, All, Occurs, without, update_where,
}
use somegram_backend.Gateway.Types.{Db}
use somegram_backend.Gateway.World.{Env}

-- A row that meets a condition, or the lack of one.
abbrev pub Seen : {A : Type 0} → (A → Bool) → List A → Option A → Type 0
Seen p l none = All (λ a. p a ≡ false) l
Seen p l (some a) = Occurs a l × (p a ≡ true)

pub record DbLaws (E : Env) : Type 1 where
  pub find_first_rows :
      {A : Type 0} (n : ℕ) (p : A → Bool) (l : List A) (o : Option A)
      → E.find_first n p l ≡ some o
      → Seen p l o
  pub find_many_rows :
      {A : Type 0} (n : ℕ) (p : A → Bool) (l k : List A)
      → E.find_many n p l ≡ some k
      → (a : A) → Occurs a k ↔ (Occurs a l × (p a ≡ true))
  pub create_rows :
      {A : Type 0} (n : ℕ) (clash : A → A → Bool) (a : A) (l k : List A)
      → E.create n clash a l ≡ some k
      → (k ≡ a ∷ l) × All (λ b. clash a b ≡ false) l
  pub update_rows :
      {A : Type 0} (n : ℕ) (p : A → Bool) (f : A → A) (l k : List A)
      → E.update n p f l ≡ some k
      → (k ≡ update_where p f l) × ((a : A) × Occurs a l × (p a ≡ true))
  pub delete_rows :
      {A : Type 0} (n : ℕ) (p : A → Bool) (l k : List A)
      → E.delete n p l ≡ some k
      → (k ≡ without p l) × ((a : A) × Occurs a l × (p a ≡ true))
  pub delete_many_rows :
      {A : Type 0} (n : ℕ) (p : A → Bool) (l k : List A)
      → E.delete_many n p l ≡ some k
      → k ≡ without p l
  -- A transaction that failed has changed nothing.
  pub roll_back_lem : (d d' : Db) → E.roll_back d d' ≡ d
