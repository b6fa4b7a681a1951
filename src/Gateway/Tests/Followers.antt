-- ===== src/Gateway/Tests/Followers.antt =====
-- Cases of the followers.
use somegram_backend.Prelude.{
  ◌≡◌, ◌↔◌, ◌≢◌, refl, sym, ap, ◌∙◌, String, true, false, List, [], ◌∷◌, ◌⊎◌, inl, inr, Occurs,
  if◌then◌else◌,
}
use somegram_backend.Effects.{ok, ◌>>=◌, pure, attempt, branch}
use somegram_backend.Outcome.{fail}
use somegram_backend.Gateway.Text.{differ→ne}
use somegram_backend.Gateway.Types.{User, UserFollow}
use somegram_backend.Gateway.World.{State, query, call, read, change, publish, transactional}
use somegram_backend.Gateway.Repositories.Users.{
  get_user_by_id, get_user_by_email, get_user_by_username, remove_user_by_id, cascade,
}
use somegram_backend.Gateway.Repositories.Follows.{
  existing_follow, follow_to_user, unfollow_to_user, new_follow,
}
use somegram_backend.Gateway.Following.{with_other_user, follow, delete_follower}
use somegram_backend.Gateway.Auth.Service.{found, generate_hash, confirmation_token}
use somegram_backend.Gateway.Auth.Registration.{
  registration, register, handle_user, created_dto, remove_user, execute_transaction,
}
use somegram_backend.Gateway.Commands.{
  Command, registration_command, follow_command, unfollow_command, delete_follower_command,
  succeeded, execute, run,
}
use somegram_backend.Gateway.Logic.{Runs}
use somegram_backend.Gateway.Logic.Promises.{is_success}
use somegram_backend.Gateway.Accounts.Follows.{HasUser}
use somegram_backend.Gateway.Accounts.Follows.Relation.{Follows, Related, IsGraph}
use somegram_backend.Gateway.Accounts.Follows.Kept.{execute-Related, run-IsGraph}
use somegram_backend.Gateway.Accounts.Follows.Blocked.{registration-Blocked}
use somegram_backend.Gateway.Tests.Sample.{sample, sample_laws}
use somegram_backend.Gateway.Tests.Runs.{anna, bob, two_users, bob_again, in_world}

abbrev row : UserFollow
row = record { id = "f"; follower_id = "1"; followee_id = "2"; created_at = 950 }

-- Bob has not confirmed his account, and Anna follows him.
abbrev anna_follows : State
anna_follows = record two_users { db = record two_users.db { follows = row ∷ [] } }

follow_succeeds : (execute sample (follow_command "1" "2") (in_world two_users)).0 ≡ ok true
unfolding sample execute succeeded ◌>>=◌ pure attempt branch query read change found follow
    with_other_user get_user_by_id follow_to_user existing_follow new_follow
follow_succeeds = refl

removal_leaves_none :
    (execute sample (delete_follower_command "2" "1") (in_world anna_follows)).1.state ≡ two_users
unfolding sample execute succeeded ◌>>=◌ pure attempt branch query read change found with_other_user
    get_user_by_id delete_follower unfollow_to_user existing_follow
removal_leaves_none = refl

-- The follow is in the way of a registration long after the token has expired.
registration_fails : (registration sample bob_again (in_world anna_follows)).0 ≡ ok fail
unfolding sample ◌>>=◌ pure attempt branch query call read change publish transactional registration
    register handle_user created_dto remove_user execute_transaction get_user_by_email
    get_user_by_username remove_user_by_id cascade generate_hash confirmation_token
registration_fails = refl

execute-Related_example :
    Runs anna_follows
      (λ b t.
        (x y : String)
        → Follows t x y ↔ (
            if b
            then Related (unfollow_command "1" "2") anna_follows x y
            else Follows anna_follows x y))
      (λ _. ⊥)
      (execute sample (unfollow_command "1" "2"))
execute-Related_example = execute-Related sample_laws (unfollow_command "1" "2") anna_follows

abbrev follow_and_register : List Command
follow_and_register =
    registration_command bob_again
    ∷ delete_follower_command "2" "1"
    ∷ registration_command bob_again
    ∷ []

of_bob :
    (f : UserFollow)
    → Occurs f (row ∷ [])
    → HasUser (anna ∷ bob ∷ []) f.followee_id × (f.follower_id ≢ f.followee_id)
of_bob f (inl e) = (
  (bob, inr (inl refl), sym (ap (λ g. g.followee_id) e)),
  λ same_user.
      differ→ne "1" "2" refl
        (sym (ap (λ g. g.follower_id) e) ∙ same_user ∙ ap (λ g. g.followee_id) e),
)
of_bob f (inr h) = absurd h

run-IsGraph_example : Runs anna_follows (λ _ t. IsGraph t) (λ _. ⊥) (run sample follow_and_register)
run-IsGraph_example = run-IsGraph sample_laws follow_and_register anna_follows (record {
  followees = λ f here. (of_bob f here).0;
  others = λ f here. (of_bob f here).1;
  once = (tt, tt);
})

only_bob :
    (v : User)
    → Occurs v (anna ∷ bob ∷ [])
    → (v.email ≡ "bob@mail.com") ⊎ (v.username ≡ "bob")
    → (f : UserFollow) × Occurs f (row ∷ []) × (f.followee_id ≡ v.id)
only_bob v (inl e) (inl q) =
    absurd (differ→ne "anna@mail.com" "bob@mail.com" refl (sym (ap (λ u. u.email) e) ∙ q))
only_bob v (inl e) (inr q) = absurd (differ→ne "anna" "bob" refl (sym (ap (λ u. u.username) e) ∙ q))
only_bob v (inr (inl e)) q = (row, inl refl, sym (ap (λ u. u.id) e))
only_bob v (inr (inr h)) q = absurd h

registration-Blocked_example :
    Runs anna_follows
      (λ a t. (is_success a.app_result ≡ false) × (t ≡ anna_follows))
      (λ _. ⊥)
      (registration sample bob_again)
registration-Blocked_example =
    registration-Blocked sample_laws bob_again anna_follows bob (inr (inl refl)) refl only_bob
