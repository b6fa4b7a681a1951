-- ===== src/Gateway/UserEntity.antt =====
-- users/domain/user.entity.ts: the user that the repository reads, with the ban that it read with
-- it, and the events that the entity applies.
use somegram_backend.Prelude.{ℕ, String, Option, none, some}
use somegram_backend.Gateway.Types.{
  User, UserBanInfo, Event, registered_user, restore_password_requested, registration_user_success,
}

pub record UserEntity : Type 0 where
  pub user : User
  pub user_ban_info : Option UserBanInfo

-- `this.firstName ?? this.username`
abbrev pub or_else : Option String → String → String
or_else none s = s
or_else (some t) s = t

unfoldable pub registration_user_event : User → String → ℕ → String → Event
registration_user_event u code expired_at html =
    registered_user u.email (or_else u.first_name u.username) expired_at code html

unfoldable pub password_recovery_event : User → String → String → Event
password_recovery_event u code html =
    restore_password_requested u.email (or_else u.first_name u.username) code html

unfoldable pub registration_success_event : User → Event
registration_success_event u = registration_user_success u.email

unfoldable pub update_password : User → String → User
update_password u password = record u { hash_password = some password }
