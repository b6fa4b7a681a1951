-- ===== src/Gateway/Repositories/Follows.antt =====
-- users/infrastructure/users-follow.repository.ts
use somegram_backend.Prelude.{ℕ, String, Bool, true, false, not, List, Option}
use somegram_backend.Effects.{◌>>=◌, ◌>>◌, pure, branch}
use somegram_backend.Gateway.Text.{same}
use somegram_backend.Gateway.Types.{UserFollow, Db}
use somegram_backend.Gateway.World.{Env, Service, query, change, read}
use somegram_backend.Gateway.Auth.Service.{is_some}

-- The unique key `unique_follow`.
abbrev pub is_pair : String → String → UserFollow → Bool
is_pair follower_id followee_id f = elim (same f.follower_id follower_id) [
  | true ↦ same f.followee_id followee_id
  | false ↦ false
]

abbrev pub same_follow : UserFollow → UserFollow → Bool
same_follow f g = elim (same f.id g.id) [
  | true ↦ true
  | false ↦ is_pair f.follower_id f.followee_id g
]

abbrev pub put_follows : Db → List UserFollow → Db
put_follows d l = record d { follows = l }

unfoldable pub new_follow : String → String → String → ℕ → UserFollow
new_follow id follower_id followee_id created_at = record {
  id = id;
  follower_id = follower_id;
  followee_id = followee_id;
  created_at = created_at;
}

module _ (E : Env) where
  unfoldable pub existing_follow : String → String → Service (Option UserFollow)
  existing_follow follower_id followee_id =
      query λ n d. E.find_first n (is_pair follower_id followee_id) d.follows

  unfoldable pub follow_to_user : String → String → Service Bool
  follow_to_user follower_id followee_id = do
    existing ← existing_follow follower_id followee_id
    branch (is_some existing) (pure false) (do
      created_at ← read E.clock
      id ← read E.random_uuid
      change put_follows (λ n d.
          E.create n same_follow (new_follow id follower_id followee_id created_at) d.follows)
      pure true)

  unfoldable pub unfollow_to_user : String → String → Service Bool
  unfollow_to_user follower_id followee_id = do
    existing ← existing_follow follower_id followee_id
    branch (not (is_some existing)) (pure false) (do
      change put_follows (λ n d. E.delete n (is_pair follower_id followee_id) d.follows)
      pure true)

  unfoldable pub is_following : String → String → Service Bool
  is_following follower_id followee_id = do
    follow ← existing_follow follower_id followee_id
    pure (is_some follow)
