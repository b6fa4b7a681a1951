-- ===== src/Gateway/Repositories/Codes.antt =====
-- The repositories of auth/infrastructure (user-confirmation and user-reset-password), and the two
-- writes of users.repository.ts that record an account of Google or GitHub.
use somegram_backend.Prelude.{ℕ, String, Bool, true, false, List, Option}
use somegram_backend.Gateway.Text.{same}
use somegram_backend.Gateway.Types.{
  UserConfirmation, UserResetPassword, UserGoogleAccount, UserGithubAccount, Db,
}
use somegram_backend.Gateway.World.{Env, Service, query, change}
use somegram_backend.Gateway.Repositories.Users.{is_code_of, put_confirmations}

abbrev pub is_token : String → UserConfirmation → Bool
is_token token c = same c.token token

abbrev pub is_code : String → UserResetPassword → Bool
is_code code c = same c.code code

-- The unique columns of `UserResetPasswordCode`, `UserGoogleInfo` and `UserGithubInfo`.
abbrev pub same_reset_code : UserResetPassword → UserResetPassword → Bool
same_reset_code b c = elim (same b.user_id c.user_id) [ true ↦ true | false ↦ same b.code c.code ]

abbrev pub same_google : UserGoogleAccount → UserGoogleAccount → Bool
same_google g h = elim (same g.user_id h.user_id) [ true ↦ true | false ↦ same g.sub h.sub ]

abbrev pub same_github : UserGithubAccount → UserGithubAccount → Bool
same_github g h = same g.user_id h.user_id

abbrev pub put_reset_codes : Db → List UserResetPassword → Db
put_reset_codes d l = record d { reset_codes = l }

abbrev pub put_google : Db → List UserGoogleAccount → Db
put_google d l = record d { google_accounts = l }

abbrev pub put_github : Db → List UserGithubAccount → Db
put_github d l = record d { github_accounts = l }

-- `updateConfirmation` and `updateResetPassword` of the entities, and the columns that the updates
-- write.
unfoldable pub update_confirmation : String → ℕ → UserConfirmation → UserConfirmation
update_confirmation token expired_at c = record c { token = token; expired_at = expired_at }

unfoldable pub update_reset_password : String → ℕ → UserResetPassword → UserResetPassword
update_reset_password code expired_at c = record c { code = code; expired_at = expired_at }

module _ (E : Env) where
  unfoldable pub remove_confirmation_by_token : String → Service (Unit {0})
  remove_confirmation_by_token token =
      change put_confirmations (λ n d. E.delete n (is_token token) d.confirmations)

  unfoldable pub update_confirmation_by_token : UserConfirmation → String → Service (Unit {0})
  update_confirmation_by_token c token = change put_confirmations (λ n d.
      E.update n (is_token token) (update_confirmation c.token c.expired_at) d.confirmations)

  unfoldable pub create_reset_password : UserResetPassword → Service (Unit {0})
  create_reset_password row =
      change put_reset_codes (λ n d. E.create n same_reset_code row d.reset_codes)

  unfoldable pub remove_reset_password_by_code : String → Service (Unit {0})
  remove_reset_password_by_code code =
      change put_reset_codes (λ n d. E.delete n (is_code code) d.reset_codes)

  unfoldable pub update_reset_password_by_code : UserResetPassword → String → Service (Unit {0})
  update_reset_password_by_code c code =
      change put_reset_codes
        (λ n d. E.update n (is_code code) (update_reset_password c.code c.expired_at) d.reset_codes)

  unfoldable pub get_reset_password_by_user_id : String → Service (Option UserResetPassword)
  get_reset_password_by_user_id id = query λ n d. E.find_first n (is_code_of id) d.reset_codes

  unfoldable pub add_google_info_to_user : UserGoogleAccount → Service (Unit {0})
  add_google_info_to_user row =
      change put_google (λ n d. E.create n same_google row d.google_accounts)

  unfoldable pub add_github_info_to_user : UserGithubAccount → Service (Unit {0})
  add_github_info_to_user row =
      change put_github (λ n d. E.create n same_github row d.github_accounts)
