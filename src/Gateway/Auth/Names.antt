-- ===== src/Gateway/Auth/Names.antt =====
-- The names that auth.service.ts makes up for a user.
use Prim.Native.String.{String}
use somegram_backend.Prelude.{◌≤◌, ◌≡◌}
use somegram_backend.Gateway.Text.{slice, before_at, text_length, length-slice, slice-join}
use somegram_backend.Gateway.Auth.Service.{generate_uniq_user_name}

-- A made-up name has at most 30 characters. Where the e-mail has 30 or more before its `@`, the
-- name is the first 30 of them, whatever the UUID is.
pub generate_uniq_user_name_bounds :
    (uuid email : String)
    → (text_length (generate_uniq_user_name uuid email) ≤ 30)
      × (30 ≤ text_length (before_at email)
          → generate_uniq_user_name uuid email ≡ slice 30 (before_at email))
unfolding generate_uniq_user_name
generate_uniq_user_name_bounds uuid email =
    (length-slice 30 _, λ h. slice-join 30 (before_at email) _ h)
