-- ===== src/Gateway/World.antt =====
-- What the gateway stands on and does not implement, as a parameter: the calls of Prisma on the
-- rows of a table, transactions, hashes, JSON web tokens, UUIDs and the clock. A call that rejects
-- is `none`. Each call gets its number, so that two equal calls may end differently.
use somegram_backend.Prelude.{ℕ, ◌+◌, String, Bool, List, ◌∷◌, Option, none, some}
use somegram_backend.Effects.{Result, ok, thrown, Action}
use somegram_backend.Gateway.Types.{Db, RefreshPayload, Event}

pub record Env : Type 1 where
  -- `findFirst`, `findUnique` and `findMany` with a condition
  pub find_first : {A : Type 0} → ℕ → (A → Bool) → List A → Option (Option A)
  pub find_many : {A : Type 0} → ℕ → (A → Bool) → List A → Option (List A)
  -- `create`, with the rows that the schema does not allow beside each other
  pub create : {A : Type 0} → ℕ → (A → A → Bool) → A → List A → Option (List A)
  -- `update` and `delete` reject where no row meets the condition
  pub update : {A : Type 0} → ℕ → (A → Bool) → (A → A) → List A → Option (List A)
  pub delete : {A : Type 0} → ℕ → (A → Bool) → List A → Option (List A)
  pub delete_many : {A : Type 0} → ℕ → (A → Bool) → List A → Option (List A)
  -- the tables after a transaction that failed: what they were before, and at its failure
  pub roll_back : Db → Db → Db
  pub hash : ℕ → String → Option String
  pub compare : ℕ → String → String → Option Bool
  pub sign_access : ℕ → String → Option String
  pub sign_refresh : ℕ → String → String → Option String
  pub verify_refresh : ℕ → String → Option RefreshPayload
  pub random_uuid : ℕ → String
  pub clock : ℕ → ℕ
  -- the environment's settings
  pub email_confirmation_token_expire_after : ℕ
  pub restore_password_code_expire_after : ℕ

-- What the methods change: the tables, and the published events with the newest first.
pub record State : Type 0 where
  pub db : Db
  pub published : List Event

pub record World : Type 0 where
  pub state : State
  pub calls : ℕ

abbrev pub Service : Type 0 → Type 0
Service A = Action World A

abbrev pub called : World → World
called w = record w { calls = w.calls + 1 }

abbrev pub answer : {A : Type 0} → Option A → World → Result A × World
answer none w = (thrown, w)
answer (some a) w = (ok a, w)

abbrev pub changed : Option Db → World → Result (Unit {0}) × World
changed none w = (thrown, w)
changed (some d) w = (ok tt, record w { state = record w.state { db = d } })

-- A call that reads the tables, and one that replaces one of them.
unfoldable pub query : {A : Type 0} → (ℕ → Db → Option A) → Service A
query f w = answer (f w.calls w.state.db) (called w)

abbrev pub rows_put : {A : Type 0} → (Db → List A → Db) → Db → Option (List A) → Option Db
rows_put put d none = none
rows_put put d (some l) = some (put d l)

unfoldable pub change :
    {A : Type 0} → (Db → List A → Db) → (ℕ → Db → Option (List A)) → Service (Unit {0})
change put f w = changed (rows_put put w.state.db (f w.calls w.state.db)) (called w)

unfoldable pub call : {A : Type 0} → (ℕ → Option A) → Service A
call f w = answer (f w.calls) (called w)

unfoldable pub read : {A : Type 0} → (ℕ → A) → Service A
read f w = (ok (f w.calls), called w)

unfoldable pub publish : Event → Service (Unit {0})
publish e w = (ok tt, record w { state = record w.state { published = e ∷ w.state.published } })

-- A value without which the method runs into a `TypeError`.
unfoldable pub required : {A : Type 0} → Option A → Service A
required a w = answer a w

abbrev pub settle : {A : Type 0} → (Db → Db) → Result A × World → Result A × World
settle f (ok a, w) = (ok a, w)
settle f (thrown, w) = (thrown, record w { state = record w.state { db = f w.state.db } })

-- `@Transactional()`
unfoldable pub transactional : {A : Type 0} → Env → Service A → Service A
transactional E m w = settle (E.roll_back w.state.db) (m w)
