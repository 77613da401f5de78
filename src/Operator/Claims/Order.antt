-- ===== src/Operator/Claims/Order.antt =====
-- The order of CR keys is total and transitive, and a claim's test by cases.
use openstack_keystone.Prelude.{
  ◌≡◌, refl, true, false, inl, inr, none, List, [], ◌∷◌, eq_iff, arith, present, text_lt_irrefl,
  text_lt_trans, text_lt_total, Elem, Bool-cases,
}
use openstack_keystone.Operator.Claims.{ProjectCr, Key, key_lt, cr_precedence_key, first_claim}

-- Two keys of which neither comes first are equal.
pub key_lt_total :
    (a b : Key)
    → key_lt a b ≡ false
    → key_lt b a ≡ false
    → (a.created ≡ b.created) × (a.in_namespace ≡ b.in_namespace) × (a.called ≡ b.called)
unfolding key_lt
key_lt_total a b p q = ground (
  arith,
  eq_iff a.created b.created,
  eq_iff b.created a.created,
  eq_iff a.in_namespace b.in_namespace,
  eq_iff b.in_namespace a.in_namespace,
  text_lt_total a.created b.created,
  text_lt_total a.in_namespace b.in_namespace,
  text_lt_total a.called b.called,
)

pub key_lt_trans : (a b c : Key) → key_lt a b ≡ true → key_lt b c ≡ true → key_lt a c ≡ true
unfolding key_lt
key_lt_trans a b c p q = ground (
  arith,
  eq_iff a.created b.created,
  eq_iff b.created c.created,
  eq_iff a.created c.created,
  eq_iff a.in_namespace b.in_namespace,
  eq_iff b.in_namespace c.in_namespace,
  eq_iff a.in_namespace c.in_namespace,
  text_lt_trans a.created b.created c.created,
  text_lt_trans a.in_namespace b.in_namespace c.in_namespace,
  text_lt_trans a.called b.called c.called,
  text_lt_irrefl a.created,
  text_lt_irrefl a.in_namespace,
)

pub key_lt_irrefl : (a : Key) → key_lt a a ≡ false
unfolding key_lt
key_lt_irrefl a =
    ground (arith, text_lt_irrefl a.created, text_lt_irrefl a.in_namespace, text_lt_irrefl a.called)

first_claim-none_head :
    (k : Key) (c : ProjectCr) (crs : List ProjectCr)
    → first_claim k (c ∷ crs) ≡ none
    → present c.deletion_timestamp ≡ false
    → (present c.status_project_id ≡ false) × (key_lt (cr_precedence_key c) k ≡ false)
unfolding first_claim
first_claim-none_head k c crs h live = ground arith

first_claim-none_tail :
    (k : Key) (c : ProjectCr) (crs : List ProjectCr)
    → first_claim k (c ∷ crs) ≡ none
    → first_claim k crs ≡ none
unfolding first_claim
first_claim-none_tail k c crs h = ground arith

-- The loop finds no claim exactly where no live CR has a project or an earlier key.
pub first_claim-none :
    (k : Key) (crs : List ProjectCr) (cr : ProjectCr)
    → first_claim k crs ≡ none
    → Elem cr crs
    → present cr.deletion_timestamp ≡ false
    → (present cr.status_project_id ≡ false) × (key_lt (cr_precedence_key cr) k ≡ false)
first_claim-none k [] cr h m live = absurd m
first_claim-none k (c ∷ crs) cr h (inl e) live =
    rw e (first_claim-none_head k c crs h (rw e at live))
first_claim-none k (c ∷ crs) cr h (inr m) live =
    first_claim-none k crs cr (first_claim-none_tail k c crs h) m live

pub none-first_claim :
    (k : Key) (crs : List ProjectCr)
    → ((cr : ProjectCr)
        → Elem cr crs
        → present cr.deletion_timestamp ≡ false
        → (present cr.status_project_id ≡ false) × (key_lt (cr_precedence_key cr) k ≡ false))
    → first_claim k crs ≡ none
unfolding first_claim
none-first_claim k [] h = refl
none-first_claim k (c ∷ crs) h =
    let rest = none-first_claim k crs (λ cr m. h cr (inr m)) in
    elim (Bool-cases (present c.deletion_timestamp)) [
      | inl gone ↦ rw gone rest
      | inr live ↦ let own = h c (inl refl) live in rw live (rw own.0 (rw own.1 rest))
    ]
