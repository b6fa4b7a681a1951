-- ===== src/Payments/Database/Frames.antt =====
-- Actions that leave the database alone, and how a property of the database passes through an
-- action and what follows it.
use somegram_backend.Prelude.{ℕ, ◌≡◌, refl, sym, subst, ◌∙◌, Bool, true, false, Option, none, some}
use somegram_backend.Effects.{Result, ok, thrown, continue, recover, ◌>>=◌, pure, attempt, branch}
use somegram_backend.Effects.Rules.{Ends, Ends-continue, Ends-recover, Ends-branch}
use somegram_backend.Payments.Types.{Message}
use somegram_backend.Payments.World.{
  Env, World, Service, answer, written, changed, query, write, change, call, emit, new_date,
  required,
}

module _ {E : Env} where
  -- However the action ends, the database is the one it began with.
  abbrev pub IsQuiet : {A : Type 0} → Service E A → Type 0
  IsQuiet m = (w : World E) → (m w).1.db ≡ w.db

  continue_quiet :
      {A B : Type 0} (r : Result A × World E) (f : A → Service E B) (d : E.Db)
      → r.1.db ≡ d
      → ((a : A) → IsQuiet (f a))
      → (continue r f).1.db ≡ d
  continue_quiet (ok a, v) f d e k = k a v ∙ e
  continue_quiet (thrown, v) f d e k = e

  recover_quiet :
      {A : Type 0} (r : Result A × World E) (a : A) (d : E.Db) → r.1.db ≡ d → (recover r a).1.db ≡ d
  recover_quiet (ok b, v) a d e = e
  recover_quiet (thrown, v) a d e = e

  answer_quiet : {A : Type 0} (o : Option A) (w : World E) → (answer o w).1.db ≡ w.db
  answer_quiet none w = refl
  answer_quiet (some a) w = refl

  pub >>=-IsQuiet :
      {A B : Type 0} (m : Service E A) (f : A → Service E B)
      → IsQuiet m
      → ((a : A) → IsQuiet (f a))
      → IsQuiet (m >>= f)
  unfolding ◌>>=◌
  >>=-IsQuiet m f h k w = continue_quiet (m w) f w.db (h w) k

  pub pure-IsQuiet : {A : Type 0} (a : A) → IsQuiet (pure a)
  unfolding pure
  pure-IsQuiet a w = refl

  pub new_date-IsQuiet : IsQuiet {A = ℕ} new_date
  unfolding new_date
  new_date-IsQuiet w = refl

  pub emit-IsQuiet : (m : Message) → IsQuiet (emit m)
  unfolding emit
  emit-IsQuiet m w = refl

  pub attempt-IsQuiet : {A : Type 0} (m : Service E A) (a : A) → IsQuiet m → IsQuiet (attempt m a)
  unfolding attempt
  attempt-IsQuiet m a h w = recover_quiet (m w) a w.db (h w)

  pub call-IsQuiet : {A : Type 0} (f : E.Remote → Option A × E.Remote) → IsQuiet (call f)
  unfolding call
  call-IsQuiet f w = answer_quiet (f w.remote).0 (record w { remote = (f w.remote).1 })

  pub query-IsQuiet : {A : Type 0} (f : E.Db → Option A) → IsQuiet (query f)
  unfolding query
  query-IsQuiet f w = answer_quiet (f w.db) w

  pub required-IsQuiet : {A : Type 0} (a : Option A) → IsQuiet (required a)
  unfolding required
  required-IsQuiet a w = answer_quiet a w

  -- `P` holds of the database however the action ends, and `Q` of its answer and world.
  abbrev pub Holds :
      {A : Type 0} → (E.Db → Type 0) → (A → World E → Type 0) → Result A × World E → Type 0
  Holds P Q r = Ends (λ w. P w.db) Q r

  module _ {A B : Type 0} (P : E.Db → Type 0) (Q : B → World E → Type 0) where
    quiet_continue :
        (r : Result A × World E) (f : A → Service E B) (d : E.Db)
        → P d
        → r.1.db ≡ d
        → ((a : A) (v : World E) → v.db ≡ d → P v.db → Holds P Q (f a v))
        → Holds P Q (continue r f)
    quiet_continue (ok a, v) f d h e k = k a v e (subst P (sym e) h)
    quiet_continue (thrown, v) f d h e k = subst P (sym e) h

    -- A quiet action, and what follows it.
    pub quiet_then :
        (m : Service E A) (f : A → Service E B) (w : World E)
        → IsQuiet m
        → P w.db
        → ((a : A) (v : World E) → v.db ≡ w.db → P v.db → Holds P Q (f a v))
        → Holds P Q ((m >>= f) w)
    unfolding ◌>>=◌
    quiet_then m f w q h k = quiet_continue (m w) f w.db h (q w) k

    answered :
        (o : Option A) (f : A → Service E B) (w : World E)
        → P w.db
        → ((a : A) → o ≡ some a → Holds P Q (f a w))
        → Holds P Q (continue (answer o w) f)
    answered none f w h k = h
    answered (some a) f w h k = k a refl

    -- A query, and what follows its answer.
    pub query_then :
        (g : E.Db → Option A) (f : A → Service E B) (w : World E)
        → P w.db
        → ((a : A) → g w.db ≡ some a → Holds P Q (f a w))
        → Holds P Q ((query g >>= f) w)
    unfolding ◌>>=◌ query
    query_then g f w h k = answered (g w.db) f w h k

    written_then :
        (o : Option (A × E.Db)) (f : A → Service E B) (w : World E)
        → P w.db
        → ((a : A) (d : E.Db) → o ≡ some (a, d) → Holds P Q (f a (record w { db = d })))
        → Holds P Q (continue (written o w) f)
    written_then none f w h k = h
    written_then (some (a, d)) f w h k = k a d refl

    -- A write that answers, and what follows it.
    pub write_then :
        (g : E.Db → Option (A × E.Db)) (f : A → Service E B) (w : World E)
        → P w.db
        → ((a : A) (d : E.Db) → g w.db ≡ some (a, d) → Holds P Q (f a (record w { db = d })))
        → Holds P Q ((write g >>= f) w)
    unfolding ◌>>=◌ write
    write_then g f w h k = written_then (g w.db) f w h k

  module _ {B : Type 0} (P : E.Db → Type 0) (Q : B → World E → Type 0) where
    changed_then :
        (o : Option E.Db) (f : Unit {0} → Service E B) (w : World E)
        → P w.db
        → ((d : E.Db) → o ≡ some d → Holds P Q (f tt (record w { db = d })))
        → Holds P Q (continue (changed o w) f)
    changed_then none f w h k = h
    changed_then (some d) f w h k = k d refl

    -- A write with no answer, and what follows it.
    pub change_then :
        (g : E.Db → Option E.Db) (f : Unit {0} → Service E B) (w : World E)
        → P w.db
        → ((d : E.Db) → g w.db ≡ some d → Holds P Q (f tt (record w { db = d })))
        → Holds P Q ((change g >>= f) w)
    unfolding ◌>>=◌ change
    change_then g f w h k = changed_then (g w.db) f w h k

  module _ {A : Type 0} (P : E.Db → Type 0) (Q : A → World E → Type 0) where
    pub pure_holds : (a : A) (w : World E) → P w.db → Q a w → Holds P Q (pure a w)
    unfolding pure
    pure_holds a w h k = (h, k)

    pub attempt_holds :
        (m : Service E A) (a : A) (w : World E)
        → Holds P Q (m w)
        → ((v : World E) → P v.db → Q a v)
        → Holds P Q (attempt m a w)
    unfolding attempt
    attempt_holds m a w h k = Ends-recover (λ v. P v.db) Q (m w) a h k

    pub branch_holds :
        (b : Bool) (m n : Service E A) (w : World E)
        → (b ≡ true → Holds P Q (m w))
        → (b ≡ false → Holds P Q (n w))
        → Holds P Q (branch b m n w)
    branch_holds b m n w h k = Ends-branch (λ v. P v.db) Q b m n w h k

  -- A quiet action that ends the method.
  pub quiet_last :
      {A : Type 0} (P : E.Db → Type 0) (Q : A → World E → Type 0) (m : Service E A) (w : World E)
      → IsQuiet m
      → P w.db
      → ((a : A) (v : World E) → Q a v)
      → Holds P Q (m w)
  quiet_last {A} P Q m w q h k = last (m w) (subst P (sym (q w)) h)
    where
      last : (r : Result A × World E) → P r.1.db → Holds P Q r
      last (ok a, v) p = (p, k a v)
      last (thrown, v) p = p

  -- A call of a provider that ends the method.
  pub called_records :
      {A : Type 0} (Q : A → World E → Type 0) (f : E.Remote → Option A × E.Remote) (w : World E)
      → ((a : A) (r : E.Remote) → (f w.remote).0 ≡ some a → Q a (record w { remote = r }))
      → Holds (λ d. Unit {0}) Q (call f w)
  unfolding call
  called_records {A} Q f w k = on_answer (f w.remote).0 refl
    where
      v : World E
      v = record w { remote = (f w.remote).1 }

      on_answer : (o : Option A) → (f w.remote).0 ≡ o → Holds (λ d. Unit {0}) Q (answer o v)
      on_answer none e = tt
      on_answer (some a) e = (tt, k a v.remote e)

  -- An action whose outcome is known, and what follows it.
  pub holds_then :
      {A B : Type 0} (P : E.Db → Type 0) (R : A → World E → Type 0) (Q : B → World E → Type 0)
      (m : Service E A) (f : A → Service E B) (w : World E)
      → Holds P R (m w)
      → ((a : A) (v : World E) → P v.db → R a v → Holds P Q (f a v))
      → Holds P Q ((m >>= f) w)
  unfolding ◌>>=◌
  holds_then P R Q m f w h k = Ends-continue (λ v. P v.db) R Q (m w) f h k

  -- A write that ends the method.
  pub change_holds :
      (P : E.Db → Type 0) (Q : Unit {0} → World E → Type 0) (g : E.Db → Option E.Db) (w : World E)
      → P w.db
      → ((d : E.Db) → g w.db ≡ some d → P d × Q tt (record w { db = d }))
      → Holds P Q (change g w)
  unfolding change
  change_holds P Q g w h k = changed_last (g w.db) w h k
    where
      changed_last :
          (o : Option E.Db) (w : World E)
          → P w.db
          → ((d : E.Db) → o ≡ some d → P d × Q tt (record w { db = d }))
          → Holds P Q (changed o w)
      changed_last none w h k = h
      changed_last (some d) w h k = k d refl

  -- A weaker property, with the stronger one kept beside the answer.
  pub holds_weaken :
      {A : Type 0} (P P' : E.Db → Type 0) (Q : A → World E → Type 0) (r : Result A × World E)
      → ((d : E.Db) → P d → P' d)
      → Holds P Q r
      → Holds P' (λ a v. P v.db × Q a v) r
  holds_weaken P P' Q (ok a, v) k h = (k v.db h.0, h)
  holds_weaken P P' Q (thrown, v) k h = k v.db h

  -- A write that answers and ends the method.
  pub write_holds :
      {A : Type 0} (P : E.Db → Type 0) (Q : A → World E → Type 0) (g : E.Db → Option (A × E.Db))
      (w : World E)
      → P w.db
      → ((a : A) (d : E.Db) → g w.db ≡ some (a, d) → P d × Q a (record w { db = d }))
      → Holds P Q (write g w)
  unfolding write
  write_holds {A} P Q g w h k = written_last (g w.db) w h k
    where
      written_last :
          (o : Option (A × E.Db)) (w : World E)
          → P w.db
          → ((a : A) (d : E.Db) → o ≡ some (a, d) → P d × Q a (record w { db = d }))
          → Holds P Q (written o w)
      written_last none w h k = h
      written_last (some (a, d)) w h k = k a d refl
