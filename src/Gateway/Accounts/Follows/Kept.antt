-- ===== src/Gateway/Accounts/Follows/Kept.antt =====
-- The commands and their runs, and who follows whom.
use somegram_backend.Prelude.{
  ℕ, ◌≡◌, ◌↔◌, refl, sym, ap, subst, ◌∙◌, String, Bool, true, false, List, Option, none, some, inl,
  inr, Occurs, find-none, update_where, Occurs-without, Occurs-update, changed_if, if◌then◌else◌,
  arith,
}
use mathlib.Core.Bool.{false≢true}
use somegram_backend.Gateway.Text.{same}
use somegram_backend.Gateway.Types.{User, UserFollow, UserResetPassword, Db}
use somegram_backend.Gateway.World.{Env, State}
use somegram_backend.Gateway.Repositories.Users.{
  has_id, is_follow_of, cascade, confirmed, with_password,
}
use somegram_backend.Gateway.Auth.Registration.{handle_user}
use somegram_backend.Gateway.Commands.{
  Command, registration_command, registration_confirmation_command,
  registration_email_resending_command, restore_password_command,
  restore_password_confirmation_command, login_command, logout_command, renew_tokens_command,
  terminate_device_command, terminate_others_command, follow_command, unfollow_command,
  delete_follower_command, google_command, github_command, execute, run,
}
use somegram_backend.Gateway.Database.{DbLaws}
use somegram_backend.Gateway.Logic.{Runs, weaken-Runs}
use somegram_backend.Gateway.Logic.Calls.{with_event}
use somegram_backend.Gateway.Accounts.SignUp.{room, Unreferenced, Registered}
use somegram_backend.Gateway.Accounts.Recovery.{code_stored}
use somegram_backend.Gateway.Accounts.Providers.{
  ProviderSignIn, known, linked, created, confirmed_if,
}
use somegram_backend.Gateway.Accounts.Follows.{HasUser}
use somegram_backend.Gateway.Accounts.Follows.Relation.{
  Follows, Related, IsGraph, Moves, kept-Moves, at-Moves, Adds-Moves, Removes-Moves,
}
use somegram_backend.Gateway.Accounts.Steps.{Step, Taken, execute-Refines, run-Preserves}

update-HasUser :
    (p : User → Bool) (f : User → User)
    → ((u : User) → (f u).id ≡ u.id)
    → (l : List User) (id : String) → HasUser l id
    → HasUser (update_where p f l) id
update-HasUser p f k l id (u, here, e) =
    (changed_if p f u, Occurs-update p f u l here, pick (p u) ∙ e)
  where
    pick : (b : Bool) → (if b then f u else u).id ≡ u.id
    pick true = k u
    pick false = refl

confirmed_if-HasUser :
    (b : Bool) (x : String) (l : List User) (id : String)
    → HasUser l id
    → HasUser (confirmed_if b x l) id
unfolding confirmed
confirmed_if-HasUser true x l id h = h
confirmed_if-HasUser false x l id h = update-HasUser (has_id x) confirmed (λ u. refl) l id h

-- An account that makes room is not one that is followed.
room-HasUser :
    (dropped : Option String) (d : Db) (f : UserFollow)
    → Unreferenced dropped d
    → Occurs f d.follows
    → HasUser d.users f.followee_id
    → HasUser (room dropped d).users f.followee_id
unfolding cascade
room-HasUser none d f free here h = h
room-HasUser (some id) d f free here (u, is_user, e) =
    let other = find-none (is_follow_of id) d.follows free f here in
    (
      u,
      Occurs-without (has_id id) u d.users is_user
          (subst (λ y. same y id ≡ false) (sym e) (ground arith)),
      e,
    )

room-follows : (dropped : Option String) (d : Db) → (room dropped d).follows ≡ d.follows
unfolding cascade
room-follows none d = refl
room-follows (some id) d = refl

Registered-Moves : {E : Env} {dto : _} {s t : State} → Registered E dto s t → Moves (Follows s) s t
Registered-Moves {s = s} r =
    let dropped = handle_user r.by_email r.by_username in
    at-Moves r.account.entered (
      kept-Moves (room-follows dropped s.db) λ f here h.
        let (u, is_user, e) = room-HasUser dropped s.db f r.account.unreferenced here h in
        (u, inr is_user, e))

Provider-Moves :
    {E : Env} {belongs : Db → User → Bool} {link : String → Db → Db} {m : String}
    {first_name : Option String} {user_agent ip : String} {s t : State}
    → ((x : String) (d : Db) → ((link x d).users ≡ d.users) × ((link x d).follows ≡ d.follows))
    → ProviderSignIn E belongs link m first_name user_agent ip s t
    → Moves (Follows s) s t
Provider-Moves k (known u tokens here has free started) =
    at-Moves started.done (kept-Moves refl λ f here h. h)
Provider-Moves {s = s} k (linked u tokens v here has free started e) =
    at-Moves (e ∙ ap (with_event _) started.done) (
      kept-Moves (k u.id _).1 λ f here h.
        subst (λ l. HasUser l f.followee_id) (sym (k u.id _).0)
          (confirmed_if-HasUser u.is_confirmed u.id s.db.users f.followee_id h))
Provider-Moves k (created x uuid date tokens v n new_id u eu started e) =
    at-Moves (e ∙ ap (with_event _) started.done) (
      kept-Moves (k u.id _).1 λ f here (w, is_user, q).
        subst (λ l. HasUser l f.followee_id) (sym (k u.id _).0) (w, inr is_user, q))

Step-Moves : (E : Env) (c : Command) (s t : State) → Step E c s t → Moves (Related c s) s t
unfolding confirmed with_password
Step-Moves E (registration_command dto) s t r = Registered-Moves r
Step-Moves E (registration_confirmation_command token) s t r = at-Moves r.done (
    kept-Moves refl
      λ f here. update-HasUser (has_id r.user.id) confirmed (λ u. refl) s.db.users f.followee_id)
Step-Moves E (registration_email_resending_command token html) s t r =
    at-Moves r.done (kept-Moves refl λ f here h. h)
Step-Moves E (restore_password_command m html) s t r =
    at-Moves r.done (stored r.user.id _ _ _ r.last)
  where
    stored :
        (x code : String) (date expired_at : ℕ) (last : Option UserResetPassword) {e : _}
        → Moves
            (Follows s)
            s
            (with_event e (record s { db = code_stored x code date expired_at last s.db }))
    stored x code date expired_at none = kept-Moves refl λ f here h. h
    stored x code date expired_at (some last) = kept-Moves refl λ f here h. h
Step-Moves E (restore_password_confirmation_command code password) s t r = at-Moves r.done (
    kept-Moves refl λ f here.
      update-HasUser (has_id r.user.id) (with_password (some r.hash_password)) (λ u. refl)
        s.db.users f.followee_id)
Step-Moves E (login_command m password user_agent ip) s t r =
    at-Moves r.started.done (kept-Moves refl λ f here h. h)
Step-Moves E (logout_command device_id) s t r = at-Moves r.done (kept-Moves refl λ f here h. h)
Step-Moves E (renew_tokens_command user_id device_id) s t r =
    at-Moves r.done (kept-Moves refl λ f here h. h)
Step-Moves E (terminate_device_command user_id device_id) s t r =
    at-Moves r.done (kept-Moves refl λ f here h. h)
Step-Moves E (terminate_others_command user_id device_id) s t r =
    at-Moves r.done (kept-Moves refl λ f here h. h)
Step-Moves E (follow_command a b) s t r = Adds-Moves r
Step-Moves E (unfollow_command a b) s t r = Removes-Moves r.done
Step-Moves E (delete_follower_command a b) s t r = Removes-Moves r.done
Step-Moves E (google_command p ip user_agent) s t r = Provider-Moves (λ x d. (refl, refl)) r.1
Step-Moves E (github_command p ip user_agent) s t r = Provider-Moves (λ x d. (refl, refl)) r

module _ {E : Env} (L : DbLaws E) where
  -- Each command always answers, and decides who follows whom. After a follow that succeeds the
  -- user follows the other, too; after one that is taken back, or the removal of a follower, that
  -- pair follows no longer; nobody else's follow has changed. No other command changes any, and
  -- none that does not succeed.
  pub execute-Related :
      (c : Command) (s : State)
      → Runs s
          (λ b t. (x y : String) → Follows t x y ↔ (if b then Related c s x y else Follows s x y))
          (λ _. ⊥)
          (execute E c)
  execute-Related c s = weaken-Runs (execute-Refines L c s) after λ t h. h
    where
      after :
          (b : Bool) (t : State)
          → Taken E c s b t
          → (x y : String) → Follows t x y ↔ (if b then Related c s x y else Follows s x y)
      after true t (inl (e, step)) = (Step-Moves E c s t step).related
      after true t (inr (e, q)) = absurd (false≢true (sym e))
      after false t (inl (e, step)) = absurd (false≢true e)
      after false t (inr (e, q)) =
          (kept-Moves {s = s} {t = t} (ap (λ x. x.db.follows) q)
            λ f here h. subst (λ x. HasUser x.db.users f.followee_id) (sym q) h).related

  -- However the commands run one after another, and whichever of them fail: if at the start all
  -- who are followed are users and not followed by themselves, and no pair or id is in two rows,
  -- so it is at the end, although a registration removes an unconfirmed user.
  pub run-IsGraph :
      (cs : List Command) (s : State) → IsGraph s → Runs s (λ _ t. IsGraph t) (λ _. ⊥) (run E cs)
  run-IsGraph cs s h = run-Preserves L IsGraph (λ c s t r. (Step-Moves E c s t r).kept) cs s h
