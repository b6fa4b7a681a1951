-- ===== src/Gateway/Logic/Total.antt =====
-- Methods that always answer, as far as the calls that they make do.
use somegram_backend.Prelude.{◌+◌, ℕ, ◌≡◌, sym, ap, subst, List, Option, some}
use somegram_backend.Effects.{Result, ok, thrown}
use somegram_backend.Gateway.Types.{Db}
use somegram_backend.Gateway.World.{
  Env, State, World, Service, answer, query, changed, rows_put, change, called, call, settle,
  transactional,
}
use somegram_backend.Gateway.Logic.{Post, Runs}

-- A method that always answers, whatever the rules above leave open.
abbrev pub IsOk : {A : Type 0} → Result A × World → Type 0
IsOk {A} r = (a : A) × (v : World) × (r ≡ (ok a, v))

module _ {A : Type 0} where
  pub total-Runs :
      {s : State} {Q : A → State → Type 0} {T U : State → Type 0} {m : Service A}
      → Runs s Q T m
      → ((w : World) → w.state ≡ s → IsOk (m w))
      → Runs s Q U m
  total-Runs {Q = Q} {T} {U} {m} h k = record {
    runs =
        λ w e. let (a, v, q) = k w e in subst (Post Q U) (sym q) (subst (Post Q T) q (h.runs w e));
  }

  pub query-IsOk :
      (s : State) (f : ℕ → Db → Option A)
      → ((n : ℕ) → (a : A) × (f n s.db ≡ some a))
      → (w : World) → w.state ≡ s
      → IsOk (query f w)
  unfolding query
  query-IsOk s f k w e =
      let (a, q) = k w.calls in
      (a, called w, ap (λ o. answer o (called w)) (subst (λ t. f w.calls t.db ≡ some a) (sym e) q))

  pub call-IsOk :
      (f : ℕ → Option A) → ((n : ℕ) → (a : A) × (f n ≡ some a)) → (w : World) → IsOk (call f w)
  unfolding call
  call-IsOk f k w = let (a, q) = k w.calls in (a, called w, ap (λ o. answer o (called w)) q)

  pub change-IsOk :
      (s : State) (put : Db → List A → Db) (f : ℕ → Db → Option (List A))
      → ((n : ℕ) → (l : List A) × (f n s.db ≡ some l))
      → (w : World) → w.state ≡ s
      → IsOk (change put f w)
  unfolding change
  change-IsOk s put f k w e =
      let (l, q) = k w.calls in
      (
        tt,
        record { state = record w.state { db = put w.state.db l }; calls = w.calls + 1 },
        ap (λ o. changed (rows_put put w.state.db o) (called w))
            (subst (λ t. f w.calls t.db ≡ some l) (sym e) q),
      )

  settled :
      (E : Env) (Q : A → State → Type 0) (U : State → Type 0) (d : Db) (r : Result A × World)
      → Post Q (λ _. ⊥) r
      → Post Q U (settle (E.roll_back d) r)
  settled E Q U d (ok a, v) h = h
  settled E Q U d (thrown, v) h = absurd h

  pub atomic-Runs :
      (E : Env) {s : State} {Q : A → State → Type 0} {U : State → Type 0} {m : Service A}
      → Runs s Q (λ _. ⊥) m
      → Runs s Q U (transactional E m)
  unfolding transactional
  atomic-Runs E {Q = Q} {U} {m} h = record {
    runs = λ w e. settled E Q U w.state.db (m w) (h.runs w e);
  }

  -- What two arguments show of a method, together.
  both_Post :
      (Q P : A → State → Type 0) (T : State → Type 0) (r : Result A × World)
      → Post Q T r
      → Post P T r
      → Post (λ a t. Q a t × P a t) T r
  both_Post Q P T (ok a, v) h k = (h, k)
  both_Post Q P T (thrown, v) h k = h

  pub both-Runs :
      {s : State} {Q P : A → State → Type 0} {T : State → Type 0} {m : Service A}
      → Runs s Q T m
      → Runs s P T m
      → Runs s (λ a t. Q a t × P a t) T m
  both-Runs {Q = Q} {P} {T} {m} h k = record {
    runs = λ w e. both_Post Q P T (m w) (h.runs w e) (k.runs w e);
  }
