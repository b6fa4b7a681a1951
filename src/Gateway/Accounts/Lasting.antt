-- ===== src/Gateway/Accounts/Lasting.antt =====
-- A confirmed account stays, whatever the use cases do.
pub mod Kept
use somegram_backend.Prelude.{
  ℕ, ◌≡◌, refl, sym, ap, subst, ◌∙◌, String, Bool, true, false, List, [], ◌∷◌, Option, none, some,
  inl, inr, All, Occurs, without, update_where, Occurs-without, Occurs-update, Occurs-update⁻,
  All→Occurs, Occurs→All, Bool-cases, changed_if, if◌then◌else◌, arith, ◌≢◌,
}
use mathlib.Core.Bool.{false≢true}
use somegram_backend.Gateway.Text.{same, same→eq}
use somegram_backend.Gateway.Types.{User, UserResetPassword, Event, Db}
use somegram_backend.Gateway.UserEntity.{UserEntity}
use somegram_backend.Gateway.World.{Env, State}
use somegram_backend.Gateway.Repositories.Users.{
  has_id, has_email, has_username, with_ban, alone, cascade, confirmed, with_password, new_user,
}
use somegram_backend.Gateway.Auth.Registration.{holds_confirmed, handle_user}
use somegram_backend.Gateway.Commands.{
  Command, registration_command, registration_confirmation_command,
  registration_email_resending_command, restore_password_command,
  restore_password_confirmation_command, login_command, logout_command, renew_tokens_command,
  terminate_device_command, terminate_others_command, google_command, github_command, run,
}
use somegram_backend.Gateway.Database.{DbLaws}
use somegram_backend.Gateway.Logic.{Runs}
use somegram_backend.Gateway.Logic.Calls.{with_event}
use somegram_backend.Gateway.Accounts.Rows.{Sees}
use somegram_backend.Gateway.Accounts.SignUp.{room, Registered}
use somegram_backend.Gateway.Accounts.Recovery.{code_stored}
use somegram_backend.Gateway.Accounts.Providers.{
  ProviderSignIn, known, linked, created, confirmed_if, google_link, github_link,
}
use somegram_backend.Gateway.Accounts.Steps.{Step, run-Preserves}
use somegram_backend.Gateway.Accounts.Emails.{IsApart, IsApart-eq, room-IsApart}

-- No two accounts have the same id, and one with the id and the e-mail is confirmed.
pub record LastsIn (id email : String) (l : List User) : Type 0 where
  pub apart : IsApart (λ u. u.id) l
  pub user : User
  pub is_user : Occurs user l
  pub is_id : user.id ≡ id
  pub is_email : user.email ≡ email
  pub is_confirmed : user.is_confirmed ≡ true

abbrev pub Lasts : String → String → State → Type 0
Lasts id email s = LastsIn id email s.db.users

update-IsApart :
    (p : User → Bool) (f : User → User) (l : List User)
    → ((u : User) → (f u).id ≡ u.id)
    → IsApart (λ u. u.id) l
    → IsApart (λ u. u.id) (update_where p f l)
update-IsApart p f [] k h = tt
update-IsApart p f (x ∷ l) k h = (
  Occurs→All (λ y. same (changed_if p f x).id y.id ≡ false) (update_where p f l)
      λ y here.
        let (z, there, e) = Occurs-update⁻ p f y l here in
        subst (λ a. same a y.id ≡ false) (sym (kept x (p x)))
          (subst (λ b. same x.id b ≡ false) (sym (ap (λ u. u.id) e ∙ kept z (p z)))
            (All→Occurs (λ y. same x.id y.id ≡ false) l h.0 z there)),
  update-IsApart p f l k h.1,
)
  where
    kept : (u : User) (b : Bool) → (if b then f u else u).id ≡ u.id
    kept u true = k u
    kept u false = refl

-- An update that keeps ids and e-mails and takes no confirmation back.
update-LastsIn :
    (p : User → Bool) (f : User → User) (l : List User) {id email : String}
    → ((u : User) → ((f u).id ≡ u.id) × ((f u).email ≡ u.email))
    → ((u : User) → u.is_confirmed ≡ true → (f u).is_confirmed ≡ true)
    → LastsIn id email l
    → LastsIn id email (update_where p f l)
update-LastsIn p f l k stays h =
    let u = h.user in
    record {
      apart = update-IsApart p f l (λ u. (k u).0) h.apart;
      user = changed_if p f u;
      is_user = Occurs-update p f u l h.is_user;
      is_id = pick_id (p u) ∙ h.is_id;
      is_email = pick_email (p u) ∙ h.is_email;
      is_confirmed = pick_confirmed (p u);
    }
  where
    pick_id : (b : Bool) → (if b then f h.user else h.user).id ≡ h.user.id
    pick_id true = (k h.user).0
    pick_id false = refl

    pick_email : (b : Bool) → (if b then f h.user else h.user).email ≡ h.user.email
    pick_email true = (k h.user).1
    pick_email false = refl

    pick_confirmed : (b : Bool) → (if b then f h.user else h.user).is_confirmed ≡ true
    pick_confirmed true = stays h.user h.is_confirmed
    pick_confirmed false = h.is_confirmed

cons-LastsIn :
    (u : User) (l : List User) {id email : String}
    → All (λ v. same u.id v.id ≡ false) l
    → LastsIn id email l
    → LastsIn id email (u ∷ l)
cons-LastsIn u l new_id h = record {
  apart = (new_id, h.apart);
  user = h.user;
  is_user = inr h.is_user;
  is_id = h.is_id;
  is_email = h.is_email;
  is_confirmed = h.is_confirmed;
}

-- The account that makes room is not confirmed.
dropped_open :
    (dto_email dto_name : String) (d : Db) (by_email by_username : Option UserEntity) (id : String)
    → Sees (has_email dto_email) (with_ban d) d.users by_email
    → Sees (has_username dto_name) alone d.users by_username
    → holds_confirmed by_email ≡ false
    → holds_confirmed by_username ≡ false
    → handle_user by_email by_username ≡ some id
    → (u : User) × Occurs u d.users × (u.id ≡ id) × (u.is_confirmed ≡ false)
unfolding handle_user
dropped_open m n d none none id se su oe ou e = absurd (ground arith)
dropped_open m n d (some x) none id (u, here, has, q) su oe ou e = (u, here, ground arith, cc)
dropped_open m n d none (some y) id se (u, here, has, q) oe ou e = (u, here, ground arith, cc)
dropped_open m n d (some x) (some y) id (u, here, has, q) (v, there, named, r) oe ou e =
    either (same x.user.id y.user.id) e
  where
    either :
        (b : Bool)
        → elim b [ true ↦ some x.user.id | false ↦ some y.user.id ] ≡ some id
        → (u : User) × Occurs u d.users × (u.id ≡ id) × (u.is_confirmed ≡ false)
    either true f = (u, here, ground arith, cc)
    either false f = (v, there, ground arith, cc)

room-LastsIn :
    (dropped : Option String) (d : Db) {id email : String}
    → ((x : String)
        → dropped ≡ some x
        → (u : User) × Occurs u d.users × (u.id ≡ x) × (u.is_confirmed ≡ false))
    → LastsIn id email d.users
    → LastsIn id email (room dropped d).users
unfolding cascade
room-LastsIn none d k h = h
room-LastsIn (some x) d k h =
    let (u, here, is_x, is_open) = k x refl in
    record {
      apart = room-IsApart (λ u. u.id) (some x) d h.apart;
      user = h.user;
      is_user =
          Occurs-without (has_id x) h.user d.users h.is_user (elim (Bool-cases (has_id x h.user)) [
            | inr other ↦ other
            | inl is_it ↦
                let same_user =
                  IsApart-eq (λ u. u.id) d.users h.apart h.user u h.is_user here
                    (same→eq _ _ is_it ∙ sym is_x) in
                absurd (
                  false≢true
                    (sym is_open ∙ sym (ap (λ v. v.is_confirmed) same_user) ∙ h.is_confirmed))
          ]);
      is_id = h.is_id;
      is_email = h.is_email;
      is_confirmed = h.is_confirmed;
    }

confirmed_if-LastsIn :
    (b : Bool) (x : String) (l : List User) {id email : String}
    → LastsIn id email l
    → LastsIn id email (confirmed_if b x l)
unfolding confirmed
confirmed_if-LastsIn true x l h = h
confirmed_if-LastsIn false x l h =
    update-LastsIn (has_id x) confirmed l (λ u. (refl, refl)) (λ u e. refl) h
