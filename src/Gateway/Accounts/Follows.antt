-- ===== src/Gateway/Accounts/Follows.antt =====
-- The use cases of the followers as steps on the tables.
pub mod Relation
pub mod Kept
pub mod Blocked
use somegram_backend.Prelude.{
  ℕ, ◌≡◌, ◌≢◌, refl, sym, ap, ◌∙◌, String, Bool, true, false, not, List, [], ◌∷◌, Option, none,
  some, ◌⊎◌, inl, inr, All, Occurs, without, arith,
}
use somegram_backend.Effects.{◌>>=◌, ◌>>◌, pure, branch}
use somegram_backend.Gateway.Text.{same, same→eq, differ→ne}
use somegram_backend.Gateway.Types.{User, UserFollow}
use somegram_backend.Gateway.World.{Env, State, Service, read, change}
use somegram_backend.Gateway.Repositories.Users.{has_id, with_ban, get_user_by_id}
use somegram_backend.Gateway.Repositories.Follows.{
  is_pair, same_follow, put_follows, new_follow, existing_follow, follow_to_user, unfollow_to_user,
}
use somegram_backend.Gateway.Following.{with_other_user, follow, unfollow, delete_follower}
use somegram_backend.Gateway.Database.{DbLaws, Seen}
use somegram_backend.Gateway.Logic.{
  Runs, Same, >>=-Runs, quiet-Runs, pure-Runs, branch-Runs, weaken-Runs,
}
use somegram_backend.Gateway.Logic.Calls.{query-Runs, read-Runs}
use somegram_backend.Gateway.Logic.Promises.{
  Meets, Implements, Promises, attempt-Implements, succeed-Runs,
}
use somegram_backend.Gateway.Auth.Service.{is_some}
use somegram_backend.Gateway.Accounts.Rows.{with_table, create-Runs, delete-Runs, find-Meets}

-- A user with the id.
abbrev pub HasUser : List User → String → Type 0
HasUser l id = (u : User) × Occurs u l × (u.id ≡ id)

-- The row is there, or there was none and it is new.
abbrev pub Adds : String → String → State → State → Type 0
Adds a b s t =
    ((f : UserFollow) × Occurs f s.db.follows × (is_pair a b f ≡ true) × (t ≡ s))
    ⊎ ((f : UserFollow) × (f.follower_id ≡ a)
        × (f.followee_id ≡ b)
        × All (λ g. same_follow f g ≡ false) s.db.follows
        × (t ≡ with_table put_follows (f ∷ s.db.follows) s))

abbrev pub Removes : String → String → State → State → Type 0
Removes a b s t = t ≡ with_table put_follows (without (is_pair a b) s.db.follows) s

-- A change that concerns another user, who exists.
pub record Concerns (user_id other_id : String) (U : State → State → Type 0) (s t : State)
    : Type 0 where
  pub apart : user_id ≢ other_id
  pub is_user : HasUser s.db.users other_id
  pub done : U s t

without-none : {A : Type 0} (p : A → Bool) (l : List A) → All (λ a. p a ≡ false) l → without p l ≡ l
without-none p [] h = refl
without-none p (x ∷ l) h = ground (arith, h.0, without-none p l h.1)

module _ {E : Env} (L : DbLaws E) where
  follow_to_user-Runs :
      {s : State} (a b : String) → Runs s (λ _ t. Adds a b s t) (Same s) (follow_to_user E a b)
  unfolding follow_to_user existing_follow new_follow
  follow_to_user-Runs {s} a b =
      quiet-Runs (query-Runs _ refl)
        λ o (n, seen). on_seen o (L.find_first_rows n (is_pair a b) s.db.follows o seen)
    where
      on_seen :
          (o : Option UserFollow)
          → Seen (is_pair a b) s.db.follows o
          → Runs s
              (λ _ t. Adds a b s t)
              (Same s)
              (branch (is_some o) (pure false) (do
                created_at ← read E.clock
                id ← read E.random_uuid
                change put_follows
                    (λ n d. E.create n same_follow (new_follow id a b created_at) d.follows)
                pure true))
      on_seen (some f) h =
          branch-Runs _ (λ _. pure-Runs false (inl (f, h.0, h.1, refl))) λ e. absurd (ground arith)
      on_seen none h =
          branch-Runs _ (λ e. absurd (ground arith))
            λ _. quiet-Runs (read-Runs E.clock) λ date _.
              quiet-Runs (read-Runs E.random_uuid) λ id _.
                >>=-Runs (create-Runs L put_follows (λ d. d.follows) same_follow _ refl)
                  λ _ t r. pure-Runs true (inr (_, refl, refl, r.1, r.0))

  unfollow_to_user-Runs :
      {s : State} (a b : String) → Runs s (λ _ t. Removes a b s t) (Same s) (unfollow_to_user E a b)
  unfolding unfollow_to_user existing_follow
  unfollow_to_user-Runs {s} a b =
      quiet-Runs (query-Runs _ refl)
        λ o (n, seen). on_seen o (L.find_first_rows n (is_pair a b) s.db.follows o seen)
    where
      on_seen :
          (o : Option UserFollow)
          → Seen (is_pair a b) s.db.follows o
          → Runs s
              (λ _ t. Removes a b s t)
              (Same s)
              (branch
                (not (is_some o))
                (pure false)
                (do change put_follows (λ n d. E.delete n (is_pair a b) d.follows); pure true))
      on_seen none h =
          branch-Runs _
            (λ _.
              pure-Runs false
                (ap (λ l. with_table put_follows l s) (sym (without-none (is_pair a b) _ h))))
            λ e. absurd (ground arith)
      on_seen (some f) h =
          branch-Runs _ (λ e. absurd (ground arith))
            λ _.
              >>=-Runs (delete-Runs L put_follows (λ d. d.follows) (is_pair a b) refl)
                λ _ t r. pure-Runs true r.0

  with_other_user-Implements :
      (message user_id other_id : String) (U : State → State → Type 0) (update : Service Bool)
      → ((s : State) → Runs s (λ _ t. U s t) (Same s) update)
      → Implements (Concerns user_id other_id U) (with_other_user E message user_id other_id update)
  unfolding with_other_user get_user_by_id
  with_other_user-Implements message user_id other_id U update h s =
      branch-Runs _ (λ _. pure-Runs _ (inr (refl, refl)))
        λ other.
          attempt-Implements (Concerns user_id other_id U)
            (λ s.
              find-Meets L (λ _. has_id other_id) with_ban (λ d. d.users) _ _ refl
                λ u here is_id. >>=-Runs (h s) λ _ t done. succeed-Runs _ refl (record {
                  apart = differ→ne _ _ other;
                  is_user = (u, here, same→eq _ _ is_id);
                  done = done;
                }))
            s

  pub follow-Implements : (a b : String) → Implements (Concerns a b (Adds a b)) (follow E a b)
  unfolding follow
  follow-Implements a b = with_other_user-Implements _ a b (Adds a b) _ λ s. follow_to_user-Runs a b

  pub unfollow-Implements :
      (a b : String) → Implements (Concerns a b (Removes a b)) (unfollow E a b)
  unfolding unfollow
  unfollow-Implements a b =
      with_other_user-Implements _ a b (Removes a b) _ λ s. unfollow_to_user-Runs a b

  pub delete_follower-Implements :
      (a b : String) → Implements (Concerns a b (Removes b a)) (delete_follower E a b)
  unfolding delete_follower
  delete_follower-Implements a b =
      with_other_user-Implements _ a b (Removes b a) _ λ s. unfollow_to_user-Runs b a
