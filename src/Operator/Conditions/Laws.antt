-- ===== src/Operator/Conditions/Laws.antt =====
-- Setting one condition: what is found afterwards, and that a type never stands twice.
use openstack_keystone.Prelude.{
  String, ◌≡◌, ◌≢◌, ◌⊎◌, refl, sym, ap, ◌∙◌, false, eq_refl, Option, none, some, List, [], ◌∷◌,
  ◌==◌, eq_iff, arith, inl, inr, Bool-cases, find, if◌then◌else◌,
}
use openstack_keystone.Operator.Conditions.{Condition, refresh, set_condition}

-- The condition of a type.
abbrev pub condition_of : String → List Condition → Option Condition
condition_of t cs = find (λ c. c.type_name == t) cs

-- No two conditions have one type.
abbrev pub UniqueTypes : List Condition → Type 0
UniqueTypes [] = Unit
UniqueTypes (c ∷ cs) = (condition_of c.type_name cs ≡ none) × UniqueTypes cs

-- The condition that a set leaves where `old` was.
abbrev expected : String → String → String → String → String → Option Condition → Condition
expected now t s r m none = record {
  type_name = t;
  status = s;
  reason = r;
  message = m;
  last_transition_time = now;
}
expected now t s r m (some c) = refresh now s r m c

ne_sym : (a b : String) → (a == b) ≡ false → (b == a) ≡ false
ne_sym a b h = ground (arith, eq_iff a b, eq_iff b a)

-- The transition time of a condition that is set: that of the old condition where the status is the
-- same, and now where it is another one or there was none.
abbrev pub TransitionTime : String → String → Option Condition → String → Type 0
TransitionTime now s none time = time ≡ now
TransitionTime now s (some old) time =
    ((old.status ≡ s) × (time ≡ old.last_transition_time)) ⊎ ((old.status ≢ s) × (time ≡ now))

-- The condition that a set of the type, the status, the reason and the message leaves.
abbrev pub IsUpdated :
    String → String → String → String → String → Option Condition → Condition → Type 0
IsUpdated now t s r m old c =
    (c.type_name ≡ t)
    × (c.status ≡ s)
    × (c.reason ≡ r)
    × (c.message ≡ m)
    × TransitionTime now s old c.last_transition_time

ne_eq : (a b : String) → b ≢ a → (a == b) ≡ false
ne_eq a b ne = elim (Bool-cases (a == b)) [
  | inl same ↦ absurd (ne (sym ((eq_iff a b).0 same)))
  | inr other ↦ other
]

none-ne-some : {A : Type 0} {a : A} → none ≡ some a → ⊥
none-ne-some h = cc

some-eq : {A : Type 0} {a b : A} → some a ≡ some b → a ≡ b
some-eq h = cc

module _ (now t s r m : String) where
  -- What is found after a set, by the search of the code.
  condition_of_after :
      (u : String) (cs : List Condition)
      → condition_of u (set_condition now t s r m cs)
        ≡ (if t == u then some (expected now t s r m (condition_of t cs)) else condition_of u cs)
  unfolding set_condition
  condition_of_after u [] = refl
  condition_of_after u (c ∷ cs) =
      ground
        (arith, eq_iff t u, eq_iff c.type_name t, eq_iff c.type_name u, condition_of_after u cs)

  -- The condition of a type has the type.
  condition_of-type_name :
      (u : String) (cs : List Condition) (c : Condition)
      → condition_of u cs ≡ some c
      → c.type_name ≡ u
  condition_of-type_name u [] c h = absurd (none-ne-some h)
  condition_of-type_name u (d ∷ cs) c h = elim (Bool-cases (d.type_name == u)) [
    | inl same ↦
        let found = rw same at h in
        (ap (λ (e : Condition). e.type_name) (sym (some-eq found))) ∙ (eq_iff d.type_name u).0 same
    | inr other ↦ condition_of-type_name u cs c (rw other at h)
  ]

  refresh-IsUpdated :
      (old : Condition)
      → old.type_name ≡ t
      → IsUpdated now t s r m (some old) (refresh now s r m old)
  unfolding refresh
  refresh-IsUpdated old typed = elim (Bool-cases (old.status == s)) [
    | inl same ↦
        rw same (
          typed,
          (eq_iff old.status s).0 same,
          refl,
          refl,
          inl ((eq_iff old.status s).0 same, refl),
        )
    | inr other ↦
        rw other
          (typed, refl, refl, refl, inr (λ e. let e' = (eq_iff old.status s).1 e in cc, refl))
  ]

  expected-IsUpdated :
      (cs : List Condition) (o : Option Condition)
      → condition_of t cs ≡ o
      → IsUpdated now t s r m o (expected now t s r m o)
  expected-IsUpdated cs none e = (refl, refl, refl, refl, refl)
  expected-IsUpdated cs (some old) e = refresh-IsUpdated old (condition_of-type_name t cs old e)

  -- After a set there is a condition of the type, with the new status, reason and message; its
  -- transition time is that of the old condition where the old status was the same, and now where
  -- it was another one or there was no condition of the type. The conditions of all other types are
  -- as before.
  pub set_condition-IsUpdated :
      (cs : List Condition)
      → ((c : Condition) × (condition_of t (set_condition now t s r m cs) ≡ some c)
          × IsUpdated now t s r m (condition_of t cs) c)
        × ((u : String) → u ≢ t → condition_of u (set_condition now t s r m cs) ≡ condition_of u cs)
  set_condition-IsUpdated cs = (
    (
      expected now t s r m (condition_of t cs),
      condition_of_after t cs ∙ rw (eq_refl t) refl,
      expected-IsUpdated cs (condition_of t cs) refl,
    ),
    λ u ne. condition_of_after u cs ∙ rw (ne_eq t u ne) refl,
  )

  -- A set keeps the types unique.
  pub set_condition-UniqueTypes :
      (cs : List Condition) → UniqueTypes cs → UniqueTypes (set_condition now t s r m cs)
  unfolding set_condition
  set_condition-UniqueTypes [] h = (refl, tt)
  set_condition-UniqueTypes (c ∷ cs) h = elim (Bool-cases (c.type_name == t)) [
    | inl same ↦ rw same h
    | inr other ↦ rw other (
      condition_of_after c.type_name cs ∙ rw (ne_sym c.type_name t other) h.0,
      set_condition-UniqueTypes cs h.1,
    )
  ]
