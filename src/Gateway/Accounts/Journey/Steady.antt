-- ===== src/Gateway/Accounts/Journey/Steady.antt =====
-- An environment in which no call rejects but those that must, and how the queries and writes of
-- the repositories then answer.
use somegram_backend.Prelude.{
  ℕ, ◌≡◌, refl, sym, ap, ◌∙◌, String, Bool, true, false, List, ◌∷◌, Option, none, some, All, Occurs,
  without, update_where, All→Occurs,
}
use mathlib.Core.Bool.{false≢true}
use somegram_backend.Gateway.Text.{is_blank}
use somegram_backend.Gateway.Types.{RefreshPayload, Db}
use somegram_backend.Gateway.World.{Env, State, query, change}
use somegram_backend.Gateway.Repositories.Users.{entity}
use somegram_backend.Gateway.Database.{DbLaws}
use somegram_backend.Gateway.Logic.{Runs, Reads, weaken-Runs}
use somegram_backend.Gateway.Logic.Calls.{Yields, call-Runs}
use somegram_backend.Gateway.Logic.Total.{total-Runs, query-IsOk, call-IsOk, change-IsOk}
use somegram_backend.Gateway.World.{call}
use somegram_backend.Gateway.Accounts.Rows.{
  Sees, entity-Runs, with_table, create-Runs, update-Runs, delete-Runs,
}

pub record Steady (E : Env) : Type 1 where
  pub find_first_total :
      {A : Type 0} (n : ℕ) (p : A → Bool) (l : List A)
      → (o : Option A) × (E.find_first n p l ≡ some o)
  pub create_total :
      {A : Type 0} (n : ℕ) (clash : A → A → Bool) (a : A) (l : List A)
      → All (λ b. clash a b ≡ false) l
      → (k : List A) × (E.create n clash a l ≡ some k)
  pub update_total :
      {A : Type 0} (n : ℕ) (p : A → Bool) (f : A → A) (l : List A) (a : A)
      → Occurs a l
      → p a ≡ true
      → (k : List A) × (E.update n p f l ≡ some k)
  pub delete_total :
      {A : Type 0} (n : ℕ) (p : A → Bool) (l : List A) (a : A)
      → Occurs a l
      → p a ≡ true
      → (k : List A) × (E.delete n p l ≡ some k)
  -- A hash is not empty, and the password that it was made of matches it.
  pub hash_total : (n : ℕ) (password : String) → (h : String) × (E.hash n password ≡ some h)
  pub hash_filled : (n : ℕ) (password h : String) → E.hash n password ≡ some h → is_blank h ≡ false
  pub compare_total :
      (m n : ℕ) (password h : String)
      → E.hash m password ≡ some h
      → E.compare n password h ≡ some true
  pub sign_access_total :
      (n : ℕ) (user_id : String) → (t : String) × (E.sign_access n user_id ≡ some t)
  pub sign_refresh_total :
      (n : ℕ) (user_id device_id : String)
      → (t : String) × (E.sign_refresh n user_id device_id ≡ some t)
  -- A token that was just signed is accepted.
  pub verify_refresh_total :
      (m n : ℕ) (user_id device_id t : String)
      → E.sign_refresh m user_id device_id ≡ some t
      → (p : RefreshPayload) × (E.verify_refresh n t ≡ some p)

-- The table shows no row that meets the condition.
pub Sees-none :
    {A B : Type 0} (p : A → Bool) (f : A → B) (l : List A) (o : Option B)
    → Sees p f l o
    → All (λ a. p a ≡ false) l
    → o ≡ none
Sees-none p f l none h k = refl
Sees-none p f l (some b) (a, here, has, e) k =
    absurd (false≢true (sym (All→Occurs (λ a. p a ≡ false) l k a here) ∙ has))

-- The table shows a row if there is one.
pub Sees-some :
    {A B : Type 0} (p : A → Bool) (f : A → B) (l : List A) (o : Option B)
    → Sees p f l o
    → (a : A) → Occurs a l
    → p a ≡ true
    → (b : A) × Occurs b l × (p b ≡ true) × (o ≡ some (f b))
Sees-some p f l none h a here has =
    absurd (false≢true (sym (All→Occurs (λ a. p a ≡ false) l h a here) ∙ has))
Sees-some p f l (some x) (b, is_b, has_b, e) a here has = (b, is_b, has_b, ap some e)

module _ {E : Env} (L : DbLaws E) (S : Steady E) where
  module _ {A : Type 0} {s : State} {U : State → Type 0} where
    pub finds-Runs :
        {B : Type 0} (p : Db → A → Bool) (f : Db → A → B) (rows : Db → List A)
        → Runs s
            (Reads s (Sees (p s.db) (f s.db) (rows s.db)))
            U
            (query λ n d. entity (f d) (E.find_first n (p d) (rows d)))
    finds-Runs p f rows =
        total-Runs (entity-Runs L {T = λ _. Unit {0}} p f rows tt)
          (query-IsOk s _ λ n. answered (S.find_first_total n (p s.db) (rows s.db)))
      where
        answered :
            {n : ℕ}
            → (o : Option A) × (E.find_first n (p s.db) (rows s.db) ≡ some o)
            → (o : Option _) × (entity (f s.db) (E.find_first n (p s.db) (rows s.db)) ≡ some o)
        answered (none, e) = (none, ap (entity (f s.db)) e)
        answered (some a, e) = (some (f s.db a), ap (entity (f s.db)) e)

    pub creates-Runs :
        (put : Db → List A → Db) (rows : Db → List A) (clash : A → A → Bool) (a : A)
        → All (λ b. clash a b ≡ false) (rows s.db)
        → Runs s
            (λ _ t. t ≡ with_table put (a ∷ rows s.db) s)
            U
            (change put (λ n d. E.create n clash a (rows d)))
    creates-Runs put rows clash a new =
        total-Runs
          (weaken-Runs (create-Runs L {T = λ _. Unit {0}} put rows clash a tt) (λ u t r. r.0)
            λ t k. k)
          (change-IsOk s put _ λ n. S.create_total n clash a (rows s.db) new)

    pub updates-Runs :
        (put : Db → List A → Db) (rows : Db → List A) (p : A → Bool) (f : A → A) (a : A)
        → Occurs a (rows s.db)
        → p a ≡ true
        → Runs s
            (λ _ t. t ≡ with_table put (update_where p f (rows s.db)) s)
            U
            (change put (λ n d. E.update n p f (rows d)))
    updates-Runs put rows p f a here has =
        total-Runs (update-Runs L {T = λ _. Unit {0}} put rows p f tt)
          (change-IsOk s put _ λ n. S.update_total n p f (rows s.db) a here has)

    pub deletes-Runs :
        (put : Db → List A → Db) (rows : Db → List A) (p : A → Bool) (a : A)
        → Occurs a (rows s.db)
        → p a ≡ true
        → Runs s
            (λ _ t. t ≡ with_table put (without p (rows s.db)) s)
            U
            (change put (λ n d. E.delete n p (rows d)))
    deletes-Runs put rows p a here has =
        total-Runs
          (weaken-Runs (delete-Runs L {T = λ _. Unit {0}} put rows p tt) (λ u t r. r.0) λ t k. k)
          (change-IsOk s put _ λ n. S.delete_total n p (rows s.db) a here has)

pub calls-Runs :
    {A : Type 0} {s : State} {U : State → Type 0} (f : ℕ → Option A)
    → ((n : ℕ) → (a : A) × (f n ≡ some a))
    → Runs s (Reads s (Yields f)) U (call f)
calls-Runs f k = total-Runs (call-Runs {T = λ _. Unit {0}} f tt) λ w _. call-IsOk f k w
