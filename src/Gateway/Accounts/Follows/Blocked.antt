-- ===== src/Gateway/Accounts/Follows/Blocked.antt =====
-- A registration in the place of an account that is followed.
use somegram_backend.Prelude.{
  ◌≡◌, refl, sym, ap, subst, ◌∙◌, String, Bool, true, false, Option, none, some, ◌⊎◌, inl, inr,
  Occurs, find-none, All→Occurs, arith,
}
use mathlib.Core.Bool.{false≢true}
use somegram_backend.Gateway.Text.{same, same→eq, eq→same}
use somegram_backend.Gateway.Types.{User, UserFollow, RegistrationBodyInputDto, Db}
use somegram_backend.Gateway.UserEntity.{UserEntity}
use somegram_backend.Gateway.World.{Env, State}
use somegram_backend.Gateway.Repositories.Users.{
  has_email, has_username, with_ban, alone, is_follow_of,
}
use somegram_backend.Gateway.Auth.Service.{Answer}
use somegram_backend.Gateway.Auth.Registration.{handle_user, registration}
use somegram_backend.Gateway.Database.{DbLaws}
use somegram_backend.Gateway.Logic.{Runs, weaken-Runs}
use somegram_backend.Gateway.Logic.Promises.{Promises, is_success}
use somegram_backend.Gateway.Accounts.Rows.{Sees}
use somegram_backend.Gateway.Accounts.SignUp.{Unreferenced, Registered, registration-Implements}

abbrev IsFollowed : Db → String → Type 0
IsFollowed d id = (f : UserFollow) × Occurs f d.follows × (f.followee_id ≡ id)

-- Whoever was seen is followed.
abbrev AllFollowed : Db → Option UserEntity → Type 0
AllFollowed d none = Unit
AllFollowed d (some x) = IsFollowed d x.user.id

-- If an account was seen by its e-mail, one of those that were seen has to make room.
chosen-IsFollowed :
    (d : Db) (x : UserEntity) (by_username : Option UserEntity)
    → AllFollowed d (some x)
    → AllFollowed d by_username
    → (id : String) × (handle_user (some x) by_username ≡ some id) × IsFollowed d id
unfolding handle_user
chosen-IsFollowed d x none h k = (x.user.id, refl, h)
chosen-IsFollowed d x (some y) h k = either (same x.user.id y.user.id)
  where
    either :
        (b : Bool)
        → (id : String) × (elim b [ true ↦ some x.user.id | false ↦ some y.user.id ] ≡ some id)
          × IsFollowed d id
    either true = (x.user.id, refl, h)
    either false = (y.user.id, refl, k)

-- What is followed does not make room.
IsFollowed-stays :
    (d : Db) (id : String) (dropped : Option String)
    → dropped ≡ some id
    → IsFollowed d id
    → Unreferenced dropped d
    → ⊥
IsFollowed-stays d id none e h free = absurd (ground arith)
IsFollowed-stays d id (some x) e (f, here, q) free =
    let other = find-none (is_follow_of x) d.follows free f here in
    let it = eq→same f.followee_id x (q ∙ ground arith) in absurd (false≢true (ground arith))

module _ {E : Env} (L : DbLaws E) (dto : RegistrationBodyInputDto) (s : State) where
  -- A user has the e-mail, and all users with the e-mail or with the name are followed. Then a
  -- registration never answers success and changes nothing, confirmed or not as these users are,
  -- and however long ago their confirmations expired.
  pub registration-Blocked :
      (u : User)
      → Occurs u s.db.users
      → u.email ≡ dto.email
      → ((v : User)
          → Occurs v s.db.users
          → (v.email ≡ dto.email) ⊎ (v.username ≡ dto.username)
          → (f : UserFollow) × Occurs f s.db.follows × (f.followee_id ≡ v.id))
      → Runs s (λ a t. (is_success a.app_result ≡ false) × (t ≡ s)) (λ _. ⊥) (registration E dto)
  registration-Blocked u here is_email all_followed =
      weaken-Runs (registration-Implements L dto s) after λ t h. h
    where
      by_email :
          (o : Option UserEntity)
          → Sees (has_email dto.email) (with_ban s.db) s.db.users o
          → (x : UserEntity) × (o ≡ some x) × IsFollowed s.db x.user.id
      by_email none h = absurd (
          false≢true (
            sym (All→Occurs (λ v. has_email dto.email v ≡ false) s.db.users h u here)
            ∙ eq→same _ _ is_email))
      by_email (some x) (v, is_v, has, e) = (
        x,
        refl,
        subst (IsFollowed s.db) (sym (ap (λ x. x.user.id) e))
            (all_followed v is_v (inl (same→eq _ _ has))),
      )

      by_username :
          (o : Option UserEntity)
          → Sees (has_username dto.username) alone s.db.users o
          → AllFollowed s.db o
      by_username none h = tt
      by_username (some x) (v, is_v, has, e) =
          subst (IsFollowed s.db) (sym (ap (λ x. x.user.id) e))
            (all_followed v is_v (inr (same→eq _ _ has)))

      refused : {t : State} → Registered E dto s t → ⊥
      refused r =
          let (x, e, h) = by_email r.by_email r.sees_email in
          let (id, chosen, followed) =
            chosen-IsFollowed s.db x r.by_username h (by_username r.by_username r.sees_username) in
          IsFollowed-stays s.db id (handle_user r.by_email r.by_username)
            (ap (λ o. handle_user o r.by_username) e ∙ chosen) followed r.account.unreferenced

      after :
          (a : Answer (Unit {0})) (t : State)
          → Promises s (Registered E dto s) a t
          → (is_success a.app_result ≡ false) × (t ≡ s)
      after a t (inl (e, r)) = absurd (refused r)
      after a t (inr h) = h
