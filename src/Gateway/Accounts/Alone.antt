-- ===== src/Gateway/Accounts/Alone.antt =====
-- Which sessions are left once a user has ended those on other devices.
use somegram_backend.Prelude.{
  ◌≡◌, refl, sym, ap, subst, ◌∙◌, String, Bool, true, false, List, [], ◌∷◌, inl, inr, Occurs, map,
  without, Occurs-without, Occurs-without⁻, Bool-cases, arith, ◌↔◌,
}
use somegram_backend.Gateway.Text.{same, same→eq, eq→same, differ→ne}
use somegram_backend.Gateway.Types.{Session}
use somegram_backend.Effects.{ok}
use somegram_backend.Gateway.Auth.Service.{Answer}
use somegram_backend.Gateway.Logic.Promises.{is_success}
use somegram_backend.Gateway.World.{World, Env, State}
use somegram_backend.Gateway.Repositories.Devices.{is_device, is_one_of}
use somegram_backend.Gateway.Auth.Sessions.{terminate_devices_exclude_current}
use somegram_backend.Gateway.Database.{DbLaws}
use somegram_backend.Gateway.Accounts.Devices.{EndedOthers, terminate_others-Implements}
use somegram_backend.Gateway.Accounts.Emails.{IsApart, IsApart-eq}
use somegram_backend.Gateway.Accounts.Spent.{success-Post, Implements-OnSuccess}

abbrev ids_of : List Session → List String
ids_of l = map (λ x. x.device_id) l

is_one_of-found :
    (l : List Session) (y : Session)
    → is_one_of (ids_of l) y ≡ true
    → (r : Session) × Occurs r l × (y.device_id ≡ r.device_id)
is_one_of-found [] y e = absurd (ground arith)
is_one_of-found (x ∷ l) y e = on_test (same y.device_id x.device_id) refl e (is_one_of-found l y)
  where
    on_test :
        (b : Bool)
        → same y.device_id x.device_id ≡ b
        → elim b [ true ↦ true | false ↦ is_one_of (ids_of l) y ] ≡ true
        → (is_one_of (ids_of l) y ≡ true → (r : Session) × Occurs r l × (y.device_id ≡ r.device_id))
        → (r : Session) × Occurs r (x ∷ l) × (y.device_id ≡ r.device_id)
    on_test true t q rec = (x, inl refl, same→eq _ _ t)
    on_test false t q rec = let r = rec q in (r.0, inr r.1, r.2)

Occurs-is_one_of : (l : List Session) (y : Session) → Occurs y l → is_one_of (ids_of l) y ≡ true
Occurs-is_one_of [] y h = absurd h
Occurs-is_one_of (x ∷ l) y (inl e) =
    ap (λ b. elim b [ true ↦ true | false ↦ is_one_of (ids_of l) y ])
      (eq→same y.device_id x.device_id (ap (λ z. z.device_id) e))
Occurs-is_one_of (x ∷ l) y (inr k) = on_test (same y.device_id x.device_id) (Occurs-is_one_of l y k)
  where
    on_test :
        (b : Bool)
        → is_one_of (ids_of l) y ≡ true
        → elim b [ true ↦ true | false ↦ is_one_of (ids_of l) y ] ≡ true
    on_test true q = refl
    on_test false q = q

-- A session stays unless it is of the user and on another device.
abbrev pub Left : String → String → State → State → Type 0
Left user_id device_id s t =
    (y : Session)
    → Occurs y t.db.sessions
      ↔ (Occurs y s.db.sessions × (y.user_id ≡ user_id → y.device_id ≡ device_id))

EndedOthers-Left :
    {user_id device_id : String} {s t : State}
    → IsApart (λ y. y.device_id) s.db.sessions
    → EndedOthers user_id device_id s t
    → Left user_id device_id s t
EndedOthers-Left {user_id} {device_id} {s} {t} apart r y = (to, from)
  where
    others : List Session
    others = without (is_device device_id) r.rows

    gone : t.db.sessions ≡ without (is_one_of (ids_of others)) s.db.sessions
    gone = ap (λ x. x.db.sessions) r.done

    to :
        Occurs y t.db.sessions
        → Occurs y s.db.sessions × (y.user_id ≡ user_id → y.device_id ≡ device_id)
    to here =
        let (there, kept) =
          Occurs-without⁻ (is_one_of (ids_of others)) y s.db.sessions
            (subst (Occurs y) gone here) in
        (
          there,
          λ theirs. elim (Bool-cases (is_device device_id y)) [
            | inl on ↦ same→eq _ _ on
            | inr off ↦
                let is_row = (r.are_theirs y).1 (there, eq→same _ _ theirs) in
                let found =
                  Occurs-is_one_of others y
                    (Occurs-without (is_device device_id) y r.rows is_row off) in
                absurd (ground arith)
          ],
        )

    from :
        Occurs y s.db.sessions × (y.user_id ≡ user_id → y.device_id ≡ device_id)
        → Occurs y t.db.sessions
    from (there, h) = subst (Occurs y) (sym gone) (
        Occurs-without (is_one_of (ids_of others)) y s.db.sessions there
          (elim (Bool-cases (is_one_of (ids_of others) y)) [
            | inr off ↦ off
            | inl on ↦
                let (x, is_other, e) = is_one_of-found others y on in
                let (is_row, off) = Occurs-without⁻ (is_device device_id) x r.rows is_other in
                let (here, theirs) = (r.are_theirs x).0 is_row in
                let is_it = IsApart-eq (λ z. z.device_id) s.db.sessions apart y x there here e in
                absurd
                  (differ→ne _ _ off (sym e ∙ h (ap (λ z. z.user_id) is_it ∙ same→eq _ _ theirs)))
          ]))

module _ {E : Env} (L : DbLaws E) where
  -- Where no two sessions are on one device, and the use case answers success, a session is left
  -- just if it was there before and, if it is of the user, is on the current device.
  pub terminate_others-Left :
      (user_id device_id : String) (w : World) (a : Answer (Unit {0}))
      → IsApart (λ y. y.device_id) w.state.db.sessions
      → (terminate_devices_exclude_current E user_id device_id w).0 ≡ ok a
      → is_success a.app_result ≡ true
      → Left user_id device_id w.state
          (terminate_devices_exclude_current E user_id device_id w).1.state
  terminate_others-Left user_id device_id w a apart answered success =
      success-Post
        (Implements-OnSuccess (EndedOthers user_id device_id) w.state
          (terminate_others-Implements L user_id device_id) λ t r. EndedOthers-Left apart r)
        w a refl answered success
