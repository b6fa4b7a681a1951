-- ===== src/Gateway/Accounts/Emails.antt =====
-- Who holds an e-mail or an id after a registration.
use somegram_backend.Prelude.{
  ◌≡◌, sym, ap, subst, ◌∙◌, String, Bool, true, false, List, [], ◌∷◌, Option, none, some, inl, inr,
  All, Occurs, without, Occurs-without⁻, All→Occurs, Occurs→All, Bool-cases, ◌≢◌,
}
use somegram_backend.Gateway.Text.{same, same→eq, differ→ne}
use somegram_backend.Gateway.Types.{User, RegistrationBodyInputDto, Db}
use somegram_backend.Gateway.UserEntity.{UserEntity}
use somegram_backend.Gateway.World.{Env, State}
use somegram_backend.Gateway.Repositories.Users.{
  has_id, has_email, has_username, with_ban, alone, cascade, new_user,
}
use somegram_backend.Gateway.Auth.Service.{Answer}
use somegram_backend.Gateway.Auth.Registration.{handle_user, registration}
use somegram_backend.Gateway.Database.{DbLaws}
use somegram_backend.Gateway.Logic.{Runs, weaken-Runs}
use somegram_backend.Gateway.Logic.Promises.{Promises}
use somegram_backend.Gateway.Accounts.Rows.{Sees}
use somegram_backend.Gateway.Accounts.SignUp.{room, Registered, registration-Implements}

-- No two rows have the same text in a column.
abbrev pub IsApart : {A : Type 0} → (A → String) → List A → Type 0
IsApart f [] = Unit
IsApart f (x ∷ l) = All (λ y. same (f x) (f y) ≡ false) l × IsApart f l

module _ {A : Type 0} (f : A → String) where
  pub IsApart-eq :
      (l : List A) → IsApart f l → (x y : A) → Occurs x l → Occurs y l → f x ≡ f y → x ≡ y
  IsApart-eq [] h x y p q e = absurd p
  IsApart-eq (z ∷ l) h x y (inl p) (inl q) e = p ∙ sym q
  IsApart-eq (z ∷ l) h x y (inl p) (inr q) e =
      absurd
        (differ→ne _ _ (All→Occurs (λ y. same (f z) (f y) ≡ false) l h.0 y q) (sym (ap f p) ∙ e))
  IsApart-eq (z ∷ l) h x y (inr p) (inl q) e =
      absurd (
        differ→ne _ _ (All→Occurs (λ y. same (f z) (f y) ≡ false) l h.0 x p) (sym (ap f q) ∙ sym e))
  IsApart-eq (z ∷ l) h x y (inr p) (inr q) e = IsApart-eq l h.1 x y p q e

  pub without-IsApart : (p : A → Bool) (l : List A) → IsApart f l → IsApart f (without p l)
  without-IsApart p [] h = tt
  without-IsApart p (x ∷ l) h = on_test (p x) (without-IsApart p l h.1)
    where
      on_test :
          (b : Bool)
          → IsApart f (without p l)
          → IsApart f (elim b [ true ↦ without p l | false ↦ x ∷ without p l ])
      on_test true k = k
      on_test false k = (
        Occurs→All (λ y. same (f x) (f y) ≡ false) (without p l)
            λ y here.
              All→Occurs (λ y. same (f x) (f y) ≡ false) l h.0 y (Occurs-without⁻ p y l here).0,
        k,
      )

-- The accounts that hold the e-mail and the name of a registration are one account.
abbrev pub IsOneHolder : RegistrationBodyInputDto → List User → Type 0
IsOneHolder dto l =
    (u v : User)
    → Occurs u l
    → Occurs v l
    → u.email ≡ dto.email
    → v.username ≡ dto.username
    → u.id ≡ v.id

-- The account with the e-mail is gone once its id has been removed.
removed :
    (dto : RegistrationBodyInputDto) (l : List User) (u w : User) (id : String)
    → IsApart (λ u. u.email) l
    → Occurs u l
    → has_email dto.email u ≡ true
    → u.id ≡ id
    → Occurs w (without (has_id id) l)
    → w.email ≢ dto.email
removed dto l u w id apart is_u has is_id here e =
    let (there, kept) = Occurs-without⁻ (has_id id) w l here in
    let is_u =
      IsApart-eq (λ u. u.email) l apart w u there is_u (e ∙ sym (same→eq u.email dto.email has)) in
    differ→ne w.id id kept (ap (λ x. x.id) is_u ∙ is_id)

-- Once the account has made room, nobody has the e-mail.
room_free :
    (dto : RegistrationBodyInputDto) (d : Db) (by_email by_username : Option UserEntity)
    → IsApart (λ u. u.email) d.users
    → IsOneHolder dto d.users
    → Sees (has_email dto.email) (with_ban d) d.users by_email
    → Sees (has_username dto.username) alone d.users by_username
    → (w : User) → Occurs w (room (handle_user by_email by_username) d).users
    → w.email ≢ dto.email
unfolding handle_user cascade
room_free dto d none none apart one se su w here e =
    absurd (differ→ne _ _ (All→Occurs (λ u. has_email dto.email u ≡ false) d.users se w here) e)
room_free dto d none (some v) apart one se su w here e =
    let there = (Occurs-without⁻ (has_id v.user.id) w d.users here).0 in
    absurd (differ→ne _ _ (All→Occurs (λ u. has_email dto.email u ≡ false) d.users se w there) e)
room_free dto d (some x) none apart one (u, is_u, has, ex) su w here e =
    removed dto d.users u w x.user.id apart is_u has (sym (ap (λ x. x.user.id) ex)) here e
room_free dto d (some x) (some y) apart one (u, is_u, has, ex) (v, is_v, has_name, ey) w here e =
    either (same x.user.id y.user.id) here
  where
    is_v_too : u.id ≡ v.id
    is_v_too =
        one u v is_u is_v (same→eq u.email dto.email has) (same→eq v.username dto.username has_name)

    either :
        (b : Bool)
        → Occurs w (room (elim b [ true ↦ some x.user.id | false ↦ some y.user.id ]) d).users
        → ⊥
    either true k =
        removed dto d.users u w x.user.id apart is_u has (sym (ap (λ x. x.user.id) ex)) k e
    either false k =
        removed dto d.users u w y.user.id apart is_u has (is_v_too ∙ sym (ap (λ x. x.user.id) ey)) k
          e

pub room-IsApart :
    (f : User → String) (dropped : Option String) (d : Db)
    → IsApart f d.users
    → IsApart f (room dropped d).users
unfolding cascade
room-IsApart f none d h = h
room-IsApart f (some id) d h = without-IsApart f (has_id id) d.users h

abbrev pub EmailsApart : State → Type 0
EmailsApart s = IsApart (λ u. u.email) s.db.users

ne→same : (s t : String) → s ≢ t → same s t ≡ false
ne→same s t h = elim (Bool-cases (same s t)) [ inl e ↦ absurd (h (same→eq s t e)) | inr e ↦ e ]

Registered-EmailsApart :
    {E : Env} {dto : RegistrationBodyInputDto} {s t : State}
    → EmailsApart s
    → IsOneHolder dto s.db.users
    → Registered E dto s t
    → EmailsApart t
unfolding new_user
Registered-EmailsApart {dto = dto} {s} apart one r =
    let dropped = handle_user r.by_email r.by_username in
    subst EmailsApart (sym r.account.entered) (
      Occurs→All (λ y. same dto.email y.email ≡ false) (room dropped s.db).users
          (λ w here. ne→same dto.email w.email λ e.
            room_free dto s.db r.by_email r.by_username apart one r.sees_email r.sees_username w
              here (sym e)),
      room-IsApart (λ u. u.email) dropped s.db apart,
    )

module _ {E : Env} (L : DbLaws E) where
  -- If no two accounts have the same e-mail, and the account with the e-mail of the registration
  -- and the one with its name, where there are both, are one, then no two accounts have the same
  -- e-mail after the registration, whatever it answers.
  pub registration-EmailsApart :
      (dto : RegistrationBodyInputDto) (s : State)
      → EmailsApart s
      → IsOneHolder dto s.db.users
      → Runs s (λ _ t. EmailsApart t) (λ _. ⊥) (registration E dto)
  registration-EmailsApart dto s apart one =
      weaken-Runs (registration-Implements L dto s) (λ a t. after a t) λ t h. h
    where
      after :
          (a : Answer (Unit {0})) (t : State) → Promises s (Registered E dto s) a t → EmailsApart t
      after a t (inl (e, r)) = Registered-EmailsApart apart one r
      after a t (inr (e, q)) = subst EmailsApart (sym q) apart
