-- ===== src/Gateway/Types.antt =====
-- The rows of the tables that hold the accounts (apps/gateway/prisma/schema.prisma), the dtos that
-- create them, the tokens, and the events that the user entity publishes. A date is a number of
-- milliseconds.
use somegram_backend.Prelude.{ℕ, String, Bool, List, Option}

pub data AccountType : Type 0 where
  personal business : AccountType

pub record User : Type 0 where
  pub id : String
  pub username : String
  pub email : String
  pub hash_password : Option String
  pub created_at : ℕ
  pub updated_at : Option ℕ
  pub is_confirmed : Bool
  pub first_name : Option String
  pub last_name : Option String
  pub date_of_birth : Option ℕ
  pub about : Option String
  pub city : Option String
  pub country : Option String
  pub account_type : AccountType
  pub subscription_expire_at : Option ℕ
  pub is_deleted : Bool

pub record UserBanInfo : Type 0 where
  pub user_id : String
  pub ban_reason : String
  pub ban_date : ℕ

pub record UserConfirmation : Type 0 where
  pub user_id : String
  pub token : String
  pub expired_at : ℕ
  pub created_at : ℕ

pub record UserResetPassword : Type 0 where
  pub user_id : String
  pub code : String
  pub expired_at : ℕ
  pub created_at : ℕ

pub record Session : Type 0 where
  pub user_id : String
  pub ip : String
  pub device_id : String
  pub last_active_date : ℕ
  pub title : String

pub record UserGoogleAccount : Type 0 where
  pub user_id : String
  pub sub : String
  pub email : String
  pub email_verified : Bool

pub record UserGithubAccount : Type 0 where
  pub user_id : String
  pub github_id : String
  pub user_name : String
  pub display_name : Option String
  pub email : String

pub record UserFollow : Type 0 where
  pub id : String
  pub follower_id : String
  pub followee_id : String
  pub created_at : ℕ

-- The tables; the order of the rows has no meaning.
pub record Db : Type 0 where
  pub users : List User
  pub bans : List UserBanInfo
  pub confirmations : List UserConfirmation
  pub reset_codes : List UserResetPassword
  pub sessions : List Session
  pub google_accounts : List UserGoogleAccount
  pub github_accounts : List UserGithubAccount
  pub follows : List UserFollow

pub record UserCreatedDto : Type 0 where
  pub username : String
  pub email : String
  pub hash_password : String
  pub created_at : ℕ
  pub confirmation_token : String
  pub confirmation_token_expires_at : ℕ
  pub is_confirmed : Bool

pub record UserCreatedByGoogleDto : Type 0 where
  pub username : String
  pub email : String
  pub created_at : ℕ
  pub is_confirmed : Bool

pub record UserCreatedByGithubDto : Type 0 where
  pub username : String
  pub email : String
  pub created_at : ℕ
  pub is_confirmed : Bool
  pub first_name : Option String

pub record RegistrationBodyInputDto : Type 0 where
  pub username : String
  pub email : String
  pub password : String
  pub html : String

pub record GoogleProfile : Type 0 where
  pub google_id : String
  pub google_email : String
  pub google_email_verified : Bool

pub record GithubProfile : Type 0 where
  pub github_id : String
  pub username : String
  pub display_name : Option String
  pub email : String

-- `JWTRefreshTokenPayloadType` without `exp`, which nothing reads; `iat` is in seconds.
pub record RefreshPayload : Type 0 where
  pub user_id : String
  pub device_id : String
  pub iat : ℕ

pub record TokensPair : Type 0 where
  pub access_token : String
  pub refresh_token : String

pub data Event : Type 0 where
  registered_user : (email name : String) (expired_at : ℕ) (code html : String) → Event
  restore_password_requested : (email name code html : String) → Event
  registration_user_success : (email : String) → Event
