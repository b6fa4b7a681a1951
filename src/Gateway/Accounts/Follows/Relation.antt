-- ===== src/Gateway/Accounts/Follows/Relation.antt =====
-- Who follows whom: what the commands do to the relation, and what always holds of its rows.
use somegram_backend.Prelude.{
  ◌≡◌, ◌≢◌, ◌↔◌, refl, sym, ap, subst, ◌∙◌, String, Bool, true, false, List, [], ◌∷◌, ◌⊎◌, inl, inr,
  All, Occurs, without, Occurs-without, Occurs-without⁻, All→Occurs, Occurs→All, Bool-cases,
}
use mathlib.Core.Bool.{false≢true}
use somegram_backend.Gateway.Text.{same, same→eq, eq→same}
use somegram_backend.Gateway.Types.{UserFollow}
use somegram_backend.Gateway.World.{State}
use somegram_backend.Gateway.Repositories.Follows.{is_pair, same_follow}
use somegram_backend.Gateway.Commands.{
  Command, follow_command, unfollow_command, delete_follower_command,
}
use somegram_backend.Gateway.Accounts.Follows.{HasUser, Adds, Removes, Concerns}

-- There is a row for the follower and the followee.
abbrev pub Follows : State → String → String → Type 0
Follows s x y = (f : UserFollow) × Occurs f s.db.follows × (f.follower_id ≡ x) × (f.followee_id ≡ y)

-- The relation after a command that has succeeded.
abbrev pub Related : Command → State → String → String → Type 0
Related (follow_command a b) s x y = Follows s x y ⊎ ((x ≡ a) × (y ≡ b))
Related (unfollow_command a b) s x y = Follows s x y × ((x ≡ a) × (y ≡ b) → ⊥)
Related (delete_follower_command a b) s x y = Follows s x y × ((x ≡ b) × (y ≡ a) → ⊥)
Related _ s x y = Follows s x y

abbrev pub Once : List UserFollow → Type 0
Once [] = Unit
Once (f ∷ l) = All (λ g. same_follow f g ≡ false) l × Once l

-- Who is followed is a user and not the follower, and there is one row for each pair.
pub record IsGraph (s : State) : Type 0 where
  pub followees : (f : UserFollow) → Occurs f s.db.follows → HasUser s.db.users f.followee_id
  pub others : (f : UserFollow) → Occurs f s.db.follows → f.follower_id ≢ f.followee_id
  pub once : Once s.db.follows

-- A step after which the relation is `R`, and which keeps the rows in order.
pub record Moves (R : String → String → Type 0) (s t : State) : Type 0 where
  pub related : (x y : String) → Follows t x y ↔ R x y
  pub kept : IsGraph s → IsGraph t

-- A step that leaves the rows, and the users who are followed.
pub kept-Moves :
    {s t : State}
    → t.db.follows ≡ s.db.follows
    → ((f : UserFollow)
        → Occurs f s.db.follows
        → HasUser s.db.users f.followee_id
        → HasUser t.db.users f.followee_id)
    → Moves (Follows s) s t
kept-Moves {s} {t} e k = record {
  related = λ x y. (
    λ (f, here, p, q). (f, subst (Occurs f) e here, p, q),
    λ (f, here, p, q). (f, subst (Occurs f) (sym e) here, p, q),
  );
  kept = λ g. record {
    followees = λ f here. let there = subst (Occurs f) e here in k f there (g.followees f there);
    others = λ f here. g.others f (subst (Occurs f) e here);
    once = subst Once (sym e) g.once;
  };
}

-- A step to a state that is written out.
pub at-Moves : {R : String → String → Type 0} {s t u : State} → t ≡ u → Moves R s u → Moves R s t
at-Moves {R} {s} e m = subst (Moves R s) (sym e) m

is_pair→eq :
    (a b : String) (f : UserFollow)
    → is_pair a b f ≡ true
    → (f.follower_id ≡ a) × (f.followee_id ≡ b)
is_pair→eq a b f h = on_test (same f.follower_id a) refl h
  where
    on_test :
        (t : Bool)
        → same f.follower_id a ≡ t
        → elim t [ true ↦ same f.followee_id b | false ↦ false ] ≡ true
        → (f.follower_id ≡ a) × (f.followee_id ≡ b)
    on_test true e h = (same→eq _ _ e, same→eq _ _ h)
    on_test false e h = absurd (false≢true h)

eq→is_pair :
    (a b : String) (f : UserFollow) → f.follower_id ≡ a → f.followee_id ≡ b → is_pair a b f ≡ true
eq→is_pair a b f p q =
    ap (λ t. elim t [ true ↦ same f.followee_id b | false ↦ false ]) (eq→same _ _ p) ∙ eq→same _ _ q

without-Once : (p : UserFollow → Bool) (l : List UserFollow) → Once l → Once (without p l)
without-Once p [] h = tt
without-Once p (x ∷ l) h = on_test (p x) (without-Once p l h.1)
  where
    on_test :
        (b : Bool)
        → Once (without p l)
        → Once (elim b [ true ↦ without p l | false ↦ x ∷ without p l ])
    on_test true rec = rec
    on_test false rec = (
      Occurs→All _ (without p l) λ g here.
          All→Occurs (λ g. same_follow x g ≡ false) l h.0 g (Occurs-without⁻ p g l here).0,
      rec,
    )

pub Adds-Moves :
    {a b : String} {s t : State}
    → Concerns a b (Adds a b) s t
    → Moves (λ x y. Follows s x y ⊎ ((x ≡ a) × (y ≡ b))) s t
Adds-Moves {a} {b} {s} {t} c = by c.done
  where
    by : Adds a b s t → Moves (λ x y. Follows s x y ⊎ ((x ≡ a) × (y ≡ b))) s t
    by (inl (f, here, is_it, e)) =
        let (is_a, is_b) = is_pair→eq a b f is_it in
        at-Moves e (record {
          related = λ x y.
              (inl, λ h. elim h [ inl h ↦ h | inr (p, q) ↦ (f, here, is_a ∙ sym p, is_b ∙ sym q) ]);
          kept = λ g. g;
        })
    by (inr (f, is_a, is_b, new, e)) = at-Moves e (record {
      related = λ x y. (
        λ (g, here, p, q). elim here [
          | inl k ↦
              inr
                (sym p ∙ ap (λ g. g.follower_id) k ∙ is_a, sym q ∙ ap (λ g. g.followee_id) k ∙ is_b)
          | inr k ↦ inl (g, k, p, q)
        ],
        λ h. elim h [
          | inl (g, k, p, q) ↦ (g, inr k, p, q)
          | inr (p, q) ↦ (f, inl refl, is_a ∙ sym p, is_b ∙ sym q)
        ],
      );
      kept = λ h. record {
        followees = λ g here. elim here [
          | inl k ↦ subst (HasUser s.db.users) (sym (ap (λ g. g.followee_id) k ∙ is_b)) c.is_user
          | inr k ↦ h.followees g k
        ];
        others = λ g here. elim here [
          | inl k ↦ λ e.
              c.apart
                (sym (ap (λ g. g.follower_id) k ∙ is_a) ∙ e ∙ ap (λ g. g.followee_id) k ∙ is_b)
          | inr k ↦ h.others g k
        ];
        once = (new, h.once);
      };
    })

pub Removes-Moves :
    {a b : String} {s t : State}
    → Removes a b s t
    → Moves (λ x y. Follows s x y × ((x ≡ a) × (y ≡ b) → ⊥)) s t
Removes-Moves {a} {b} {s} e = at-Moves e (record {
  related = λ x y. (
    λ (f, here, p, q).
        let (there, other) = Occurs-without⁻ (is_pair a b) f s.db.follows here in
        ((f, there, p, q), λ (v, w). false≢true (sym other ∙ eq→is_pair a b f (p ∙ v) (q ∙ w))),
    λ ((f, here, p, q), other). (
      f,
      Occurs-without (is_pair a b) f s.db.follows here (elim (Bool-cases (is_pair a b f)) [
        | inr off ↦ off
        | inl on ↦ let (v, w) = is_pair→eq a b f on in absurd (other (sym p ∙ v, sym q ∙ w))
      ]),
      p,
      q,
    ),
  );
  kept = λ g. record {
    followees = λ f here. g.followees f (Occurs-without⁻ (is_pair a b) f s.db.follows here).0;
    others = λ f here. g.others f (Occurs-without⁻ (is_pair a b) f s.db.follows here).0;
    once = without-Once (is_pair a b) s.db.follows g.once;
  };
})
