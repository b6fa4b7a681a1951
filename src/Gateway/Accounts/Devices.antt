-- ===== src/Gateway/Accounts/Devices.antt =====
-- The renewal of the tokens and the end of sessions as steps on the tables.
use somegram_backend.Prelude.{
  inl, inr, ◌⊎◌, sym, ℕ, ◌≡◌, ◌↔◌, refl, ◌∙◌, ap, String, Bool, true, false, List, [], ◌∷◌, some,
  Occurs, map, without, update_where, arith,
}
use somegram_backend.Effects.{◌>>=◌}
use somegram_backend.Gateway.Text.{same→eq}
use somegram_backend.Gateway.Types.{Session, TokensPair, Db}
use somegram_backend.Gateway.World.{Env, State, Service, query}
use somegram_backend.Gateway.Repositories.Users.{is_session_of}
use somegram_backend.Gateway.Repositories.Devices.{
  is_device, is_one_of, put_sessions, renew_session, rows_or_null, update_last_active_date,
  get_device_by_id, delete_device, delete_sessions_by_id, get_devices_by_user_id,
}
use somegram_backend.Gateway.Auth.Service.{Answer, found}
use somegram_backend.Gateway.Auth.Sessions.{
  logout, renew_found, renew_tokens, terminate_found, terminate_device_by_id, terminate_ids,
  terminate_others, terminate_devices_exclude_current,
}
use somegram_backend.Gateway.Database.{DbLaws}
use somegram_backend.Gateway.Logic.{
  Runs, Same, >>=-Runs, quiet-Runs, pure-Runs, branch-Runs, found-Runs, attempt-Runs, weaken-Runs,
}
use somegram_backend.Gateway.Logic.Calls.{query-Runs}
use somegram_backend.Gateway.Logic.Promises.{
  Promises, Meets, Implements, is_success, attempt-Implements, refuse-Meets, succeed-Runs,
}
use somegram_backend.Gateway.Accounts.Rows.{
  with_table, update-Runs, delete-Runs, delete_many-Runs, not-false,
}
use somegram_backend.Gateway.Accounts.SignIn.{Issued, tokens_for-Runs}

abbrev pub device_gone : String → State → State
device_gone device_id s = with_table put_sessions (without (is_device device_id) s.db.sessions) s

-- There is a session on the device, and it ends.
pub record Ended (device_id : String) (s t : State) : Type 0 where
  pub session : Session
  pub is_session : Occurs session s.db.sessions
  pub is_on_device : is_device device_id session ≡ true
  pub done : t ≡ device_gone device_id s

-- The session belongs to the user, besides.
pub record Terminated (user_id device_id : String) (s t : State) : Type 0 where
  pub session : Session
  pub is_session : Occurs session s.db.sessions
  pub is_on_device : is_device device_id session ≡ true
  pub is_theirs : session.user_id ≡ user_id
  pub done : t ≡ device_gone device_id s

-- The session on the device gets the date of the new refresh token.
pub record Renewed (E : Env) (user_id device_id : String) (s t : State) : Type 0 where
  pub session : Session
  pub is_session : Occurs session s.db.sessions
  pub is_on_device : is_device device_id session ≡ true
  pub tokens : TokensPair
  pub date : ℕ
  pub issued : Issued E user_id device_id tokens date
  pub done :
      t
      ≡ with_table put_sessions
          (update_where (is_device device_id) (renew_session date) s.db.sessions)
          s

-- The user has sessions beside the one on the device, and they end.
pub record EndedOthers (user_id device_id : String) (s t : State) : Type 0 where
  pub rows : List Session
  pub are_theirs :
      (a : Session) → Occurs a rows ↔ (Occurs a s.db.sessions × (is_session_of user_id a ≡ true))
  pub done :
      t
      ≡ with_table put_sessions
          (without
            (is_one_of (map (λ x. x.device_id) (without (is_device device_id) rows)))
            s.db.sessions)
          s

module _ {E : Env} (L : DbLaws E) where
  -- A query of whole rows, with which a use case goes on.
  row-Meets :
      {A C : Type 0} {s : State} {S : State → Type 0} (p : A → Bool) (rows : Db → List A)
      (absent : Answer C) (next : A → Service (Answer C))
      → is_success absent.app_result ≡ false
      → ((a : A) → Occurs a (rows s.db) → p a ≡ true → Meets s S (next a))
      → Meets s S (query (λ n d. E.find_first n p (rows d)) >>= found absent next)
  row-Meets {s = s} p rows absent next refused k = quiet-Runs (query-Runs _ refl) λ o (n, seen).
      found-Runs absent o (λ _. inr (refused, refl))
        λ a e. let h = L.find_first_rows n p (rows s.db) (some a) (seen ∙ ap some e) in k a h.0 h.1

  -- A logout that answers success has ended the session on the device; else it has changed
  -- nothing. It always answers.
  pub logout-Implements : (device_id : String) → Implements (Ended device_id) (logout E device_id)
  unfolding logout delete_device
  logout-Implements device_id = attempt-Implements _ λ s.
      >>=-Runs (delete-Runs L put_sessions (λ d. d.sessions) (is_device device_id) refl) λ _ t r.
        succeed-Runs _ refl
          (record { session = r.1.0; is_session = r.1.1; is_on_device = r.1.2; done = r.0 })

  -- The answer of a renewal that succeeds has the tokens of its step.
  abbrev pub Renews : String → String → State → Answer TokensPair → State → Type 0
  Renews user_id device_id s a t =
      ((is_success a.app_result ≡ true)
        × ((r : Renewed E user_id device_id s t) × (a.payload ≡ some r.tokens)))
      ⊎ ((is_success a.app_result ≡ false) × (t ≡ s))

  pub renew_tokens-Runs :
      (user_id device_id : String) (s : State)
      → Runs s (Renews user_id device_id s) (λ _. ⊥) (renew_tokens E user_id device_id)
  unfolding renew_tokens renew_found get_device_by_id update_last_active_date renew_session
  renew_tokens-Runs user_id device_id s =
      attempt-Runs {T = Same s} _
        (quiet-Runs (query-Runs _ refl) λ o (n, seen).
          found-Runs _ o (λ _. inr (refl, refl))
            λ session e.
              let (here, on) =
                L.find_first_rows n (is_device device_id) s.db.sessions (some session)
                  (seen ∙ ap some e) in
              quiet-Runs (tokens_for-Runs user_id device_id refl) λ issued is_issued.
                >>=-Runs (update-Runs L put_sessions (λ d. d.sessions) _ _ refl) λ _ t done.
                  pure-Runs _ (
                    inl (
                      refl,
                      (
                        record {
                          session = session;
                          is_session = here;
                          is_on_device = on;
                          tokens = issued.0;
                          date = issued.1;
                          issued = is_issued;
                          done =
                              done
                              ∙ ap
                                  (λ x.
                                    with_table put_sessions
                                      (update_where (is_device x) (renew_session issued.1)
                                        s.db.sessions)
                                      s)
                                  (same→eq session.device_id device_id on);
                        },
                        refl,
                      ),
                    )))
        λ t k. inr (refl, k)

  pub renew_tokens-Implements :
      (user_id device_id : String)
      → Implements (Renewed E user_id device_id) (renew_tokens E user_id device_id)
  renew_tokens-Implements user_id device_id s =
      weaken-Runs (renew_tokens-Runs user_id device_id s) made λ t k. k
    where
      made :
          (a : Answer TokensPair) (t : State)
          → Renews user_id device_id s a t
          → Promises s (Renewed E user_id device_id s) a t
      made a t (inl (e, (r, same))) = inl (e, r)
      made a t (inr h) = inr h

  pub terminate_device-Implements :
      (user_id device_id : String)
      → Implements (Terminated user_id device_id) (terminate_device_by_id E user_id device_id)
  unfolding terminate_device_by_id terminate_found get_device_by_id delete_device
  terminate_device-Implements user_id device_id = attempt-Implements _ λ s.
      row-Meets (is_device device_id) (λ d. d.sessions) _ _ refl
        λ session here on.
          branch-Runs _ (λ _. refuse-Meets _ refl)
            λ theirs.
              >>=-Runs (delete-Runs L put_sessions (λ d. d.sessions) (is_device device_id) refl)
                λ _ t r. succeed-Runs _ refl (record {
                  session = session;
                  is_session = here;
                  is_on_device = on;
                  is_theirs = same→eq session.user_id user_id (not-false _ theirs);
                  done = r.0;
                })

  ids-Meets :
      {s : State} (user_id device_id : String) (rows : List Session)
      → ((a : Session)
          → Occurs a rows ↔ (Occurs a s.db.sessions × (is_session_of user_id a ≡ true)))
      → (ids : List String) → ids ≡ map (λ x. x.device_id) (without (is_device device_id) rows)
      → Meets s (EndedOthers user_id device_id s) (terminate_ids E ids)
  unfolding terminate_ids delete_sessions_by_id
  ids-Meets user_id device_id rows theirs [] e = refuse-Meets _ refl
  ids-Meets {s} user_id device_id rows theirs (id ∷ ids) e =
      >>=-Runs (delete_many-Runs L put_sessions (λ d. d.sessions) (is_one_of (id ∷ ids)) refl)
        λ _ t done. succeed-Runs _ refl (record {
          rows = rows;
          are_theirs = theirs;
          done = done ∙ ap (λ l. with_table put_sessions (without (is_one_of l) s.db.sessions) s) e;
        })

  or_null_some : {A : Type 0} (l k : List A) → rows_or_null l ≡ some k → l ≡ k
  or_null_some [] k e = absurd (ground arith)
  or_null_some (x ∷ xs) k e = ground arith

  pub terminate_others-Implements :
      (user_id device_id : String)
      → Implements
          (EndedOthers user_id device_id)
          (terminate_devices_exclude_current E user_id device_id)
  unfolding terminate_devices_exclude_current get_devices_by_user_id terminate_others
  terminate_others-Implements user_id device_id = attempt-Implements _ λ s.
      quiet-Runs
        {R = λ o.
          (k : List Session) × (o ≡ rows_or_null k)
          × ((a : Session)
              → Occurs a k ↔ (Occurs a s.db.sessions × (is_session_of user_id a ≡ true)))}
        (quiet-Runs (query-Runs _ refl) λ k (n, e).
          pure-Runs _
            (refl, (k, refl, L.find_many_rows n (is_session_of user_id) s.db.sessions k e)))
        λ o (k, e, theirs).
          found-Runs _ o (λ _. inr (refl, refl))
            λ l q. ids-Meets user_id device_id k theirs _ (
              ap (λ l. map (λ x. x.device_id) (without (is_device device_id) l))
                (sym (or_null_some k l (sym e ∙ q))))
