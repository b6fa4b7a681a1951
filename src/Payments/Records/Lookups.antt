-- ===== src/Payments/Records/Lookups.antt =====
-- How a handler or a command begins that reads one row by a condition.
use somegram_backend.Prelude.{◌≡◌, ap, ◌∙◌, Bool, true, some, none}
use somegram_backend.Effects.{◌>>=◌, ok, attempt}
use somegram_backend.Outcome.{succeed, fail}
use somegram_backend.Payments.SubscriptionEntity.{Subscription}
use somegram_backend.Payments.World.{Env, World, Service, query}
use somegram_backend.Payments.Answers.{Answer, found}
use somegram_backend.Payments.Database.{DbLaws}
use somegram_backend.Payments.Database.Frames.{Holds, query_then}
use somegram_backend.Payments.Records.{
  Always, OnSuccess, on_success, attempt_success, found_success, success_map,
}

module _ {E : Env} (L : DbLaws E) where
  -- A row of the table that meets the condition.
  abbrev pub IsRowOf : (Subscription → Bool) → Subscription → E.Db → Type 0
  IsRowOf p s d = (L.row d s.id ≡ some s) × (p s ≡ true)

  pub lookup_records :
      (p : Subscription → Bool) (next : Subscription → Service E Answer)
      (Q : Subscription → World E → Type 0) (w : World E)
      → ((s : Subscription) → L.row w.db s.id ≡ some s → Holds Always (OnSuccess (Q s)) (next s w))
      → let m = attempt (query (E.find_first p) >>= found E next) fail in
        (m w).0 ≡ ok (succeed none) → (s : Subscription) × IsRowOf p s w.db × Q s (m w).1
  lookup_records p next Q w h =
      let R : World E → Type 0 = λ v. (s : Subscription) × IsRowOf p s w.db × Q s v in
      on_success Always R _ (
        attempt_success R _ w (
          query_then Always (OnSuccess R) _ _ w tt λ o e. found_success R _ o w λ s same.
            let (here, own) = L.find_first_found p w.db s (e ∙ ap some same) in
            success_map (Q s) R _ (λ u q. (s, (here, own), q)) (h s here)))
