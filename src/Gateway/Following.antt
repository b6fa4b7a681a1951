-- ===== src/Gateway/Following.antt =====
-- users/application/use-cases: a user follows another, or no longer, or removes a follower. The
-- three use cases have one frame.
use somegram_backend.Prelude.{String, Bool, none}
use somegram_backend.Effects.{◌>>=◌, ◌>>◌, pure, attempt, branch}
use somegram_backend.Outcome.{succeed, refuse_request, missing, fail}
use somegram_backend.Gateway.Text.{same}
use somegram_backend.Gateway.World.{Env, Service}
use somegram_backend.Gateway.Repositories.Users.{get_user_by_id}
use somegram_backend.Gateway.Repositories.Follows.{follow_to_user, unfollow_to_user}
use somegram_backend.Gateway.Auth.Service.{Answer, found}

module _ (E : Env) where
  unfoldable pub with_other_user :
      String → String → String → Service Bool → Service (Answer (Unit {0}))
  with_other_user message user_id other_id update =
      branch (same user_id other_id) (pure (refuse_request message none)) (
        attempt
          (do
            other ← get_user_by_id E other_id
            found missing (λ _. do update; pure (succeed none)) other)
          fail)

  unfoldable pub follow : String → String → Service (Answer (Unit {0}))
  follow user_id followee_id =
      with_other_user "User try follow to myself" user_id followee_id
        (follow_to_user E user_id followee_id)

  unfoldable pub unfollow : String → String → Service (Answer (Unit {0}))
  unfollow user_id followee_id =
      with_other_user "User try unfollow myself" user_id followee_id
        (unfollow_to_user E user_id followee_id)

  unfoldable pub delete_follower : String → String → Service (Answer (Unit {0}))
  delete_follower user_id follower_id =
      with_other_user "User try remove self" user_id follower_id
        (unfollow_to_user E follower_id user_id)
