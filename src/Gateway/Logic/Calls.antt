-- ===== src/Gateway/Logic/Calls.antt =====
-- The single calls, and a transaction of them.
use somegram_backend.Prelude.{ℕ, ◌≡◌, refl, sym, ◌∙◌, ap, subst, List, ◌∷◌, Option, none, some}
use somegram_backend.Effects.{Result, ok, thrown}
use somegram_backend.Gateway.Types.{Db, Event}
use somegram_backend.Gateway.World.{
  Env, State, World, Service, answer, query, changed, rows_put, change, called, call, read, publish,
  required, settle, transactional,
}
use somegram_backend.Gateway.Database.{DbLaws}
use somegram_backend.Gateway.Logic.{Post, Runs, Same, Reads, weaken-Runs}

-- The single calls.
module _ {A : Type 0} where
  abbrev pub Answers : State → (ℕ → Db → Option A) → A → Type 0
  Answers s f a = (n : ℕ) × (f n s.db ≡ some a)

  abbrev pub Yields : (ℕ → Option A) → A → Type 0
  Yields f a = (n : ℕ) × (f n ≡ some a)

  abbrev pub Puts :
      State → (Db → List A → Db) → (ℕ → Db → Option (List A)) → Unit {0} → State → Type 0
  Puts s put f _ t =
      (n : ℕ) × (l : List A) × (f n s.db ≡ some l) × (t ≡ record s { db = put s.db l })

-- A call that throws leaves the state as it is, and so what holds of it.
module _ {A : Type 0} {s : State} {T : State → Type 0} where
  pub query-Runs : (f : ℕ → Db → Option A) → T s → Runs s (Reads s (Answers s f)) T (query f)
  unfolding query
  query-Runs f h = record { runs = λ w e. at w e (f w.calls w.state.db) refl }
    where
      at :
          (w : World)
          → w.state ≡ s
          → (o : Option A) → f w.calls w.state.db ≡ o
          → Post (Reads s (Answers s f)) T (answer o (called w))
      at w e none q = subst T (sym e) h
      at w e (some a) q = (e, (w.calls, subst (λ t. f w.calls t.db ≡ some a) e q))

  pub call-Runs : (f : ℕ → Option A) → T s → Runs s (Reads s (Yields f)) T (call f)
  unfolding call
  call-Runs f h = record { runs = λ w e. at w e (f w.calls) refl }
    where
      at :
          (w : World)
          → w.state ≡ s
          → (o : Option A) → f w.calls ≡ o
          → Post (Reads s (Yields f)) T (answer o (called w))
      at w e none q = subst T (sym e) h
      at w e (some a) q = (e, (w.calls, q))

  pub read-Runs : (f : ℕ → A) → Runs s (Reads s (λ a. (n : ℕ) × (f n ≡ a))) T (read f)
  unfolding read
  read-Runs f = record { runs = λ w e. (e, (w.calls, refl)) }

  pub required-Runs : (o : Option A) → T s → Runs s (Reads s (λ a. o ≡ some a)) T (required o)
  unfolding required
  required-Runs o h = record { runs = at o }
    where
      at :
          (o : Option A) (w : World) → w.state ≡ s → Post (Reads s (λ a. o ≡ some a)) T (answer o w)
      at none w e = subst T (sym e) h
      at (some a) w e = (e, refl)

  pub change-Runs :
      (put : Db → List A → Db) (f : ℕ → Db → Option (List A))
      → T s
      → Runs s (Puts s put f) T (change put f)
  unfolding change
  change-Runs put f h = record { runs = λ w e. at w e (f w.calls w.state.db) refl }
    where
      with_rows : List A → State → State
      with_rows k t = record t { db = put t.db k }

      at :
          (w : World)
          → w.state ≡ s
          → (o : Option (List A)) → f w.calls w.state.db ≡ o
          → Post (Puts s put f) T (changed (rows_put put w.state.db o) (called w))
      at w e none q = subst T (sym e) h
      at w e (some l) q = (w.calls, l, subst (λ t. f w.calls t.db ≡ some l) e q, ap (with_rows l) e)

abbrev pub with_event : Event → State → State
with_event e s = record s { published = e ∷ s.published }

pub publish-Runs :
    {s : State} {T : State → Type 0} (e : Event) → Runs s (λ _ t. t ≡ with_event e s) T (publish e)
unfolding publish
publish-Runs e = record { runs = λ w q. ap (with_event e) q }

-- A transaction that throws leaves the tables as they were.
module _ {E : Env} (L : DbLaws E) {A : Type 0} where
  pub settle-Post :
      {s : State} (Q : A → State → Type 0) (w : World) (r : Result A × World)
      → w.state ≡ s
      → Post Q (λ t. t.published ≡ s.published) r
      → Post Q (Same s) (settle (E.roll_back w.state.db) r)
  settle-Post Q w (ok a, v) e h = h
  settle-Post Q w (thrown, v) e h = λ i. record {
    db = (L.roll_back_lem w.state.db v.state.db ∙ ap (λ t. t.db) e) i;
    published = h i;
  }

  pub transactional-Runs :
      {s : State} {Q : A → State → Type 0} {T : State → Type 0} {m : Service A}
      → T s
      → Runs s Q (λ t. t.published ≡ s.published) m
      → Runs s Q T (transactional E m)
  unfolding transactional
  transactional-Runs {Q = Q} {T} {m} k h =
      weaken-Runs (record { runs = λ w e. settle-Post Q w (m w) e (h.runs w e) }) (λ a t q. q)
        λ t e. subst T (sym e) k
