-- ===== src/Gateway/Accounts/Rows.antt =====
-- What the queries and the writes of the repositories do, by the laws of the database.
use somegram_backend.Prelude.{
  not, sym, subst, inr, arith, ℕ, ◌≡◌, refl, ◌∙◌, ap, Bool, true, false, List, ◌∷◌, Option, none,
  some, All, Occurs, without, update_where,
}
use somegram_backend.Effects.{◌>>=◌}
use somegram_backend.Gateway.Auth.Service.{Answer, found, is_some}
use somegram_backend.Gateway.World.{Service, Env, State, query, change}
use somegram_backend.Gateway.Types.{Db}
use somegram_backend.Gateway.Repositories.Users.{entity}
use somegram_backend.Gateway.Database.{DbLaws}
use somegram_backend.Gateway.Logic.{Runs, Reads, weaken-Runs, quiet-Runs, found-Runs}
use somegram_backend.Gateway.Logic.Calls.{query-Runs, change-Runs}
use somegram_backend.Gateway.Logic.Promises.{Meets, is_success}

-- What a query answers about the rows of a table: `f` of one that meets the condition, if any.
abbrev pub Sees : {A B : Type 0} → (A → Bool) → (A → B) → List A → Option B → Type 0
Sees p f l none = All (λ a. p a ≡ false) l
Sees {A} p f l (some b) = (a : A) × Occurs a l × (p a ≡ true) × (b ≡ f a)

module _ {E : Env} (L : DbLaws E) {A : Type 0} where
  entity-Sees :
      {B : Type 0} (n : ℕ) (p : A → Bool) (f : A → B) (l : List A) (o : Option B)
      (r : Option (Option A))
      → E.find_first n p l ≡ r
      → entity f r ≡ some o
      → Sees p f l o
  entity-Sees n p f l o none q e = absurd (ground arith)
  entity-Sees n p f l none (some none) q e = L.find_first_rows n p l none q
  entity-Sees n p f l (some b) (some none) q e = absurd (ground arith)
  entity-Sees n p f l none (some (some a)) q e = absurd (ground arith)
  entity-Sees n p f l (some b) (some (some a)) q e =
      let h = L.find_first_rows n p l (some a) q in (a, h.0, h.1, cc)

  pub entity-Runs :
      {B : Type 0} {s : State} {T : State → Type 0} (p : Db → A → Bool) (f : Db → A → B)
      (rows : Db → List A)
      → T s
      → Runs s
          (Reads s (Sees (p s.db) (f s.db) (rows s.db)))
          T
          (query λ n d. entity (f d) (E.find_first n (p d) (rows d)))
  entity-Runs {s = s} p f rows h =
      weaken-Runs (query-Runs _ h)
        (λ o t r. (r.0, entity-Sees r.1.0 (p s.db) (f s.db) (rows s.db) o _ refl r.1.1)) λ t k. k

-- The state in which the table that `put` replaces has the rows `l`.
abbrev pub with_table : {A : Type 0} → (Db → List A → Db) → List A → State → State
with_table put l s = record s { db = put s.db l }

module _ {E : Env} (L : DbLaws E) {A : Type 0} where
  pub create-Runs :
      {s : State} {T : State → Type 0} (put : Db → List A → Db) (rows : Db → List A)
      (clash : A → A → Bool) (a : A)
      → T s
      → Runs s
          (λ _ t. (t ≡ with_table put (a ∷ rows s.db) s) × All (λ b. clash a b ≡ false) (rows s.db))
          T
          (change put (λ n d. E.create n clash a (rows d)))
  create-Runs {s = s} put rows clash a h =
      weaken-Runs (change-Runs put _ h)
        (λ u t r.
          let (n, l, e, q) = r in
          let c = L.create_rows n clash a (rows s.db) l e in
          (q ∙ ap (λ k. with_table put k s) c.0, c.1))
        λ t k. k

  pub update-Runs :
      {s : State} {T : State → Type 0} (put : Db → List A → Db) (rows : Db → List A) (p : A → Bool)
      (f : A → A)
      → T s
      → Runs s
          (λ _ t. t ≡ with_table put (update_where p f (rows s.db)) s)
          T
          (change put (λ n d. E.update n p f (rows d)))
  update-Runs {s = s} put rows p f h =
      weaken-Runs (change-Runs put _ h)
        (λ u t r.
          let (n, l, e, q) = r in
          q ∙ ap (λ k. with_table put k s) (L.update_rows n p f (rows s.db) l e).0)
        λ t k. k

  pub delete-Runs :
      {s : State} {T : State → Type 0} (put : Db → List A → Db) (rows : Db → List A) (p : A → Bool)
      → T s
      → Runs s
          (λ _ t.
            (t ≡ with_table put (without p (rows s.db)) s)
            × ((a : A) × Occurs a (rows s.db) × (p a ≡ true)))
          T
          (change put (λ n d. E.delete n p (rows d)))
  delete-Runs {s = s} put rows p h =
      weaken-Runs (change-Runs put _ h)
        (λ u t r.
          let (n, l, e, q) = r in
          let c = L.delete_rows n p (rows s.db) l e in (q ∙ ap (λ k. with_table put k s) c.0, c.1))
        λ t k. k

  pub delete_many-Runs :
      {s : State} {T : State → Type 0} (put : Db → List A → Db) (rows : Db → List A) (p : A → Bool)
      → T s
      → Runs s
          (λ _ t. t ≡ with_table put (without p (rows s.db)) s)
          T
          (change put (λ n d. E.delete_many n p (rows d)))
  delete_many-Runs {s = s} put rows p h =
      weaken-Runs (change-Runs put _ h)
        (λ u t r.
          let (n, l, e, q) = r in
          q ∙ ap (λ k. with_table put k s) (L.delete_many_rows n p (rows s.db) l e))
        λ t k. k

-- A use case that goes on with a row which it must find.
module _ {E : Env} (L : DbLaws E) {A B C : Type 0} {s : State} {S : State → Type 0} where
  pub find-Meets :
      (p : Db → A → Bool) (f : Db → A → B) (rows : Db → List A) (absent : Answer C)
      (next : B → Service (Answer C))
      → is_success absent.app_result ≡ false
      → ((a : A) → Occurs a (rows s.db) → p s.db a ≡ true → Meets s S (next (f s.db a)))
      → Meets s S
          (query (λ n d. entity (f d) (E.find_first n (p d) (rows d))) >>= found absent next)
  find-Meets p f rows absent next refused k = quiet-Runs (entity-Runs L p f rows refl) λ o sees.
      found-Runs absent o (λ _. inr (refused, refl))
        λ b e. on_seen b (subst (Sees (p s.db) (f s.db) (rows s.db)) e sees)
    where
      on_seen : (b : B) → Sees (p s.db) (f s.db) (rows s.db) (some b) → Meets s S (next b)
      on_seen b (a, here, holds, e) = subst (λ x. Meets s S (next x)) (sym e) (k a here holds)

pub is_some-false : {A : Type 0} (o : Option A) → is_some o ≡ false → o ≡ none
is_some-false none h = refl
is_some-false (some a) h = absurd (ground arith)

pub not-false : (b : Bool) → not b ≡ false → b ≡ true
not-false true h = refl
not-false false h = absurd (ground arith)
