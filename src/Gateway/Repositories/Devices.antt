-- ===== src/Gateway/Repositories/Devices.antt =====
-- security-devices/infrastructure/security-devices.repository.ts
use somegram_backend.Prelude.{ℕ, String, Bool, true, false, List, [], ◌∷◌, Option, none, some}
use somegram_backend.Effects.{◌>>=◌, pure}
use somegram_backend.Gateway.Text.{same}
use somegram_backend.Gateway.Types.{Session, Db}
use somegram_backend.Gateway.World.{Env, Service, query, change}
use somegram_backend.Gateway.Repositories.Users.{is_session_of}

abbrev pub is_device : String → Session → Bool
is_device device_id s = same s.device_id device_id

-- `deviceId: { in: sessionsId }`
abbrev pub is_one_of : List String → Session → Bool
is_one_of [] s = false
is_one_of (id ∷ ids) s =
    let rest = is_one_of ids s in elim (same s.device_id id) [ true ↦ true | false ↦ rest ]

abbrev pub same_device : Session → Session → Bool
same_device s t = same s.device_id t.device_id

abbrev pub put_sessions : Db → List Session → Db
put_sessions d l = record d { sessions = l }

-- `if (devices.length <= 0) return null`
abbrev pub rows_or_null : {A : Type 0} → List A → Option (List A)
rows_or_null [] = none
rows_or_null (x ∷ xs) = some (x ∷ xs)

-- `renewSession` of the entity, which is the column that `updateLastActiveDate` writes.
unfoldable pub renew_session : ℕ → Session → Session
renew_session iat s = record s { last_active_date = iat }

module _ (E : Env) where
  unfoldable pub create_session : Session → Service (Unit {0})
  create_session row = change put_sessions (λ n d. E.create n same_device row d.sessions)

  unfoldable pub update_last_active_date : Session → Service (Unit {0})
  update_last_active_date s =
      change put_sessions
        (λ n d. E.update n (is_device s.device_id) (renew_session s.last_active_date) d.sessions)

  unfoldable pub delete_all_sessions_for_user : String → Service (Unit {0})
  delete_all_sessions_for_user user_id =
      change put_sessions (λ n d. E.delete_many n (is_session_of user_id) d.sessions)

  unfoldable pub get_device_by_id : String → Service (Option Session)
  get_device_by_id device_id = query λ n d. E.find_first n (is_device device_id) d.sessions

  unfoldable pub delete_device : String → Service (Unit {0})
  delete_device device_id = change put_sessions (λ n d. E.delete n (is_device device_id) d.sessions)

  unfoldable pub delete_sessions_by_id : List String → Service (Unit {0})
  delete_sessions_by_id ids =
      change put_sessions (λ n d. E.delete_many n (is_one_of ids) d.sessions)

  unfoldable pub get_devices_by_user_id : String → Service (Option (List Session))
  get_devices_by_user_id user_id = do
    l ← query λ n d. E.find_many n (is_session_of user_id) d.sessions
    pure (rows_or_null l)
