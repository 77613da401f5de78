-- ===== src/Operator/ClusterGarbage/Leader.antt =====
-- The choice of the daemon that runs the cluster-wide collection.
use openstack_keystone.Prelude.{
  String, ◌≡◌, refl, sym, ◌∙◌, Bool, true, false, List, [], ◌∷◌, inl, inr, Elem, text_lt,
  text_lt_irrefl, text_lt_trans, text_lt_total, eq_iff, eq_refl, Bool-cases, if◌then◌else◌,
}
use openstack_keystone.Operator.ClusterGarbage.{first_name, is_leader}

-- The name stands in the list, and no name of the list comes before it.
abbrev pub IsFirst : String → List String → Type 0
IsFirst n names = Elem n names × ((m : String) → Elem m names → text_lt m n ≡ false)

true-false : true ≡ false → ⊥
true-false h = cc

asymmetric : (a b : String) → text_lt a b ≡ true → text_lt b a ≡ false
asymmetric a b h = elim (Bool-cases (text_lt b a)) [
  | inl back ↦ absurd (true-false (sym (text_lt_trans a b a h back) ∙ text_lt_irrefl a))
  | inr other ↦ other
]

not_before : (a b c : String) → text_lt a b ≡ false → text_lt b c ≡ false → text_lt a c ≡ false
not_before a b c p q = elim (Bool-cases (text_lt a c)) [
  | inl before ↦ elim (Bool-cases (text_lt b a)) [
    | inl back ↦ absurd (true-false (sym (text_lt_trans b a c back before) ∙ q))
    | inr other ↦ rw (text_lt_total a b p other) q
  ]
  | inr other ↦ other
]

-- The lesser of two names, with what is first among it and the others.
IsFirst-of_lesser :
    (a b f : String) (names : List String)
    → text_lt b a ≡ false
    → IsFirst f (a ∷ names)
    → IsFirst f (a ∷ b ∷ names) × IsFirst f (b ∷ a ∷ names)
IsFirst-of_lesser a b f names lesser (there, least) =
    let behind = not_before b a f lesser (least a (inl refl)) in
    (
      (
        elim there [ inl e ↦ inl e | inr m ↦ inr (inr m) ],
        λ m k. elim k [
          | inl e ↦ rw e (least a (inl refl))
          | inr l ↦ elim l [ inl e ↦ rw e behind | inr k' ↦ least m (inr k') ]
        ],
      ),
      (inr there, λ m k. elim k [ inl e ↦ rw e behind | inr l ↦ least m l ]),
    )

-- What is first once the first two names were compared.
IsFirst-compared :
    (n least : String) (names : List String) (c : Bool)
    → text_lt n least ≡ c
    → IsFirst (first_name (if c then n else least) names) ((if c then n else least) ∷ names)
    → IsFirst (first_name (if c then n else least) names) (least ∷ n ∷ names)
IsFirst-compared n least names true h first =
    (IsFirst-of_lesser n least (first_name n names) names (asymmetric n least h) first).1
IsFirst-compared n least names false h first =
    (IsFirst-of_lesser least n (first_name least names) names h first).0

first_name-IsFirst :
    (least : String) (names : List String) → IsFirst (first_name least names) (least ∷ names)
unfolding first_name
first_name-IsFirst least [] =
    (inl refl, λ m k. elim k [ inl e ↦ rw e (text_lt_irrefl least) | inr l ↦ absurd l ])
first_name-IsFirst least (n ∷ names) =
    IsFirst-compared n least names (text_lt n least) refl
      (first_name-IsFirst (if text_lt n least then n else least) names)

-- Where there are CRs, the daemon of one CR is the leader: exactly the one whose name comes first.
pub is_leader_lem :
    (n : String) (names : List String)
    → (leader : String) × IsFirst leader (n ∷ names)
      × ((m : String) → is_leader m (n ∷ names) ≡ true → m ≡ leader)
      × (is_leader leader (n ∷ names) ≡ true)
unfolding is_leader
is_leader_lem n names = (
  first_name n names,
  first_name-IsFirst n names,
  λ m h. (eq_iff m (first_name n names)).0 h,
  eq_refl (first_name n names),
)
