-- ===== src/Gateway/Tests/Sample.antt =====
-- An environment in which every call answers that can, with the rows as lists.
use somegram_backend.Prelude.{
  ℕ, zero, suc, ◌≡◌, refl, sym, ap, subst, ◌∙◌, String, Bool, true, false, not, ◌||◌, List, [], ◌∷◌,
  Option, none, some, inl, inr, All, Occurs, find, find-Occurs, without, update_where,
  Occurs-without, Occurs-without⁻, All→Occurs, Option-cases, arith,
}
use mathlib.Core.Bool.{false≢true}
use somegram_backend.Gateway.Text.{same, join, is_blank, same_refl}
use somegram_backend.Gateway.Types.{Db}
use somegram_backend.Gateway.World.{Env, State}
use somegram_backend.Gateway.Database.{DbLaws, Seen}
use somegram_backend.Gateway.Accounts.Journey.Steady.{Steady}

abbrev pub clashes : {A : Type 0} → (A → A → Bool) → A → List A → Bool
clashes clash a [] = false
clashes clash a (b ∷ l) = clash a b || clashes clash a l

abbrev pub entering : {A : Type 0} → Bool → A → List A → Option (List A)
entering true a l = none
entering false a l = some (a ∷ l)

abbrev pub if_any : {A B : Type 0} → Option A → B → Option B
if_any none b = none
if_any (some a) b = some b

-- A UUID for each number: as many letters.
abbrev pub letters : ℕ → String
letters zero = String.[]
letters (suc n) = join "u" (letters n)

unfoldable pub sample : Env
sample = record {
  find_first = λ n p l. some (find p l);
  find_many = λ n p l. some (without (λ a. not (p a)) l);
  create = λ n clash a l. entering (clashes clash a l) a l;
  update = λ n p f l. if_any (find p l) (update_where p f l);
  delete = λ n p l. if_any (find p l) (without p l);
  delete_many = λ n p l. some (without p l);
  roll_back = λ d d'. d;
  hash = λ n password. some (join "#" password);
  compare = λ n password hash. some (same hash (join "#" password));
  sign_access = λ n user_id. some user_id;
  sign_refresh = λ n user_id device_id. some device_id;
  verify_refresh = λ n token. some (record { user_id = token; device_id = token; iat = 7 });
  random_uuid = letters;
  clock = λ n. 1000;
  email_confirmation_token_expire_after = 500;
  restore_password_code_expire_after = 500;
}

find-Seen : {A : Type 0} (p : A → Bool) (l : List A) → Seen p l (find p l)
find-Seen {A} p [] = tt
find-Seen {A} p (x ∷ l) = on_test (p x) refl (find p l) (find-Seen p l)
  where
    on_test :
        (b : Bool)
        → p x ≡ b
        → (o : Option A) → Seen p l o
        → Seen p (x ∷ l) (elim b [ true ↦ some x | false ↦ o ])
    on_test true e o h = (inl refl, e)
    on_test false e none h = (e, h)
    on_test false e (some a) h = (inr h.0, h.1)

some_eq : {A : Type 0} (a b : A) → some a ≡ some b → a ≡ b
some_eq a b e = ground arith

not-true : (b : Bool) → b ≡ true → not b ≡ false
not-true true e = refl
not-true false e = absurd (false≢true e)

not-not : (b : Bool) → not b ≡ false → b ≡ true
not-not true e = refl
not-not false e = absurd (false≢true (sym e))

entering-rows :
    {A : Type 0} (clash : A → A → Bool) (a : A) (l k : List A)
    → entering (clashes clash a l) a l ≡ some k
    → (k ≡ a ∷ l) × All (λ b. clash a b ≡ false) l
entering-rows {A} clash a l k e = on_test (clashes clash a l) refl e
  where
    apart : (l : List A) → clashes clash a l ≡ false → All (λ b. clash a b ≡ false) l
    apart [] e = tt
    apart (b ∷ l) e = (ground arith, apart l (ground arith))

    on_test :
        (b : Bool)
        → clashes clash a l ≡ b
        → entering b a l ≡ some k
        → (k ≡ a ∷ l) × All (λ b. clash a b ≡ false) l
    on_test true q e = absurd (ground arith)
    on_test false q e = (sym (some_eq _ _ e), apart l q)

no_clash :
    {A : Type 0} (clash : A → A → Bool) (a : A) (l : List A)
    → All (λ b. clash a b ≡ false) l
    → clashes clash a l ≡ false
no_clash clash a [] h = refl
no_clash clash a (b ∷ l) h = ground (arith, h.0, no_clash clash a l h.1)

if_any-rows :
    {A : Type 0} (p : A → Bool) (l m k : List A)
    → if_any (find p l) m ≡ some k
    → (k ≡ m) × ((a : A) × Occurs a l × (p a ≡ true))
if_any-rows {A} p l m k e = on_found (find p l) refl e
  where
    on_found :
        (o : Option A)
        → find p l ≡ o
        → if_any o m ≡ some k
        → (k ≡ m) × ((a : A) × Occurs a l × (p a ≡ true))
    on_found none q e = absurd (ground arith)
    on_found (some a) q e = let r = find-Occurs p l a q in (sym (some_eq _ _ e), (a, r.0, r.1))

pub sample_laws : DbLaws sample
unfolding sample
sample_laws = record {
  find_first_rows = λ n p l o e. subst (Seen p l) (some_eq _ _ e) (find-Seen p l);
  find_many_rows = λ n p l k e a. (
    λ here.
        let r =
          Occurs-without⁻ (λ x. not (p x)) a l (subst (Occurs a) (sym (some_eq _ _ e)) here) in
        (r.0, not-not (p a) r.1),
    λ r.
        subst (Occurs a) (some_eq _ _ e)
          (Occurs-without (λ x. not (p x)) a l r.0 (not-true (p a) r.1)),
  );
  create_rows = λ n clash a l k e. entering-rows clash a l k e;
  update_rows = λ n p f l k e. if_any-rows p l (update_where p f l) k e;
  delete_rows = λ n p l k e. if_any-rows p l (without p l) k e;
  delete_many_rows = λ n p l k e. sym (some_eq _ _ e);
  roll_back_lem = λ d d'. refl;
}

any_there :
    {A : Type 0} (p : A → Bool) (l m : List A) (a : A)
    → Occurs a l
    → p a ≡ true
    → (k : List A) × (if_any (find p l) m ≡ some k)
any_there p l m a here has = elim (Option-cases (find p l)) [
  | inl e ↦ absurd (
      false≢true
        (sym (All→Occurs (λ a. p a ≡ false) l (subst (Seen p l) e (find-Seen p l)) a here) ∙ has))
  | inr (b, e) ↦ (m, ap (λ o. if_any o m) e)
]

pub sample-Steady : Steady sample
unfolding sample
sample-Steady = record {
  find_first_total = λ n p l. (find p l, refl);
  create_total = λ n clash a l h. (a ∷ l, ap (λ b. entering b a l) (no_clash clash a l h));
  update_total = λ n p f l a here has. any_there p l (update_where p f l) a here has;
  delete_total = λ n p l a here has. any_there p l (without p l) a here has;
  hash_total = λ n password. (join "#" password, refl);
  hash_filled = λ n password h e. subst (λ x. is_blank x ≡ false) (some_eq _ _ e) refl;
  compare_total = λ m n password h e.
      ap some (
        ap (λ x. same x (join "#" password)) (sym (some_eq _ _ e)) ∙ same_refl (join "#" password));
  sign_access_total = λ n user_id. (user_id, refl);
  sign_refresh_total = λ n user_id device_id. (device_id, refl);
  verify_refresh_total =
      λ m n user_id device_id t e. (record { user_id = t; device_id = t; iat = 7 }, refl);
}

abbrev pub no_rows : Db
no_rows = record {
  users = [];
  bans = [];
  confirmations = [];
  reset_codes = [];
  sessions = [];
  google_accounts = [];
  github_accounts = [];
  follows = [];
}

abbrev pub at_start : State
at_start = record { db = no_rows; published = [] }
