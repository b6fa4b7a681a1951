-- ===== src/Gateway/Tests/Runs/Entering.antt =====
-- Cases of the made-up names, and the way to the first login.
use somegram_backend.Prelude.{◌≡◌, ◌≤◌, refl, String, ℕ, [], ◌∷◌, arith}
use somegram_backend.Gateway.Text.{text_length, before_at, slice, without_dashes}
use somegram_backend.Gateway.Types.{User}
use somegram_backend.Gateway.Auth.Registration.{registration, registration_confirmation}
use somegram_backend.Gateway.Auth.Sessions.{login}
use somegram_backend.Gateway.Auth.Service.{generate_uniq_user_name}
use somegram_backend.Gateway.Auth.Names.{generate_uniq_user_name_bounds}
use somegram_backend.Gateway.UserEntity.{registration_user_event}
use somegram_backend.Gateway.Logic.{Runs}
use somegram_backend.Gateway.Accounts.Journey.Entering.{Succeeds}
use somegram_backend.Gateway.Accounts.Journey.Arriving.{registration-confirmation-login}
use somegram_backend.Gateway.Tests.Sample.{sample, sample_laws, sample-Steady, at_start}
use somegram_backend.Gateway.Tests.Runs.{bob_again}

abbrev long_email : String
long_email = "a_very_long_name_with_34_characters@mail.com"

generate_uniq_user_name_bounds_example :
    (text_length (generate_uniq_user_name "f81d4fae-7dec" long_email) ≤ 30)
    × (30 ≤ text_length (before_at long_email)
        → generate_uniq_user_name "f81d4fae-7dec" long_email ≡ slice 30 (before_at long_email))
generate_uniq_user_name_bounds_example = generate_uniq_user_name_bounds "f81d4fae-7dec" long_email

-- The e-mail is long enough.
long_name : generate_uniq_user_name "f81d4fae-7dec" long_email ≡ "a_very_long_name_with_34_chara"
unfolding generate_uniq_user_name before_at
long_name = refl

short_name : generate_uniq_user_name "f81d4fae-7dec" "bob@mail.com" ≡ "bob-f81d4fae"
unfolding generate_uniq_user_name before_at without_dashes
short_name = refl

registration-confirmation-login_example :
    Runs at_start
      (λ a t.
        Succeeds a t
        × ((u : User) × (token : String) × (expired_at : ℕ) × (t.published
              ≡ registration_user_event u token expired_at "" ∷ [])
            × (u.email ≡ "bob@mail.com")
            × Runs t
                (λ b w.
                  Succeeds b w
                  × Runs w Succeeds (λ _. ⊥) (login sample "bob@mail.com" "other" "Mac" "::1"))
                (λ _. ⊥)
                (registration_confirmation sample token)))
      (λ _. ⊥)
      (registration sample bob_again)
unfolding sample
registration-confirmation-login_example =
    registration-confirmation-login sample_laws sample-Steady
      (record {
        new_email = tt;
        new_username = tt;
        new_id = λ n. tt;
        new_ban = λ n. tt;
        new_owner = λ n. tt;
        new_token = λ n. tt;
        new_device = λ n id. tt;
      })
      (λ m n. omega arith) "Mac" "::1"
