-- ===== src/Operator/Registry/Orphans.antt =====
-- Which entries of the registry count as orphans.
use openstack_keystone.Prelude.{
  String, ◌≡◌, refl, sym, ap, ◌∙◌, true, false, not, ◌==◌, eq_iff, eq_refl, arith, Bool-cases,
  if◌then◌else◌, contains, Option, none, some, All, All-Elem, List, [], ◌∷◌, inl, inr, map, filter,
  Elem, Elem-filter, Elem-of_filter,
}
use openstack_keystone.Exec.{ok, pure}
use openstack_keystone.Exec.Inversion.{>>=-eq-ok, ok-eq}
use openstack_keystone.Dict.{lookup, has, DistinctKeys, lookup-update}
use openstack_keystone.Operator.Registry.{
  Value, text, texts, Info, Resources, Json, cr_name_in, ConfigMapApi, is_orphan, named,
  get_resources, get_orphans,
}
use openstack_keystone.Operator.Registry.Laws.{ConfigMapLaws}
use openstack_keystone.Operator.Registry.View.{view, get_resources_lem}

Elem-map : {A B : Type 0} (f : A → B) (x : A) (xs : List A) → Elem x xs → Elem (f x) (map f xs)
Elem-map f x [] m = absurd m
Elem-map f x (y ∷ xs) (inl e) = inl (ap f e)
Elem-map f x (y ∷ xs) (inr m) = inr (Elem-map f x xs m)

false-ne-true : false ≡ true → ⊥
false-ne-true h = cc

Elem-of_map :
    {A B : Type 0} (f : A → B) (z : B) (xs : List A)
    → Elem z (map f xs)
    → (x : A) × Elem x xs × (z ≡ f x)
Elem-of_map f z [] m = absurd m
Elem-of_map f z (y ∷ xs) (inl e) = (y, inl refl, e)
Elem-of_map f z (y ∷ xs) (inr m) = let (x, h, e) = Elem-of_map f z xs m in (x, inr h, e)

-- The metadata have no CR name among the expected ones: none at all, one that is no text, or another
-- text.
abbrev pub Unexpected : List String → Info → Type 0
Unexpected expected info =
    (s : String) → lookup "cr_name" info ≡ some (text s) → ¬ (Elem s expected)

-- The metadata with the name of their entry, where they have no value for "name" themselves.
abbrev pub IsNamed : String → Info → Info → Type 0
IsNamed name info out =
    (k : String)
    → lookup k out
      ≡ (if has k info then lookup k info else if "name" == k then some (text name) else none)

-- `infos` are the metadata of the unexpected entries of `r`, each with its name, and no others.
abbrev pub Orphans : List String → Resources → List Info → Type 0
Orphans expected r infos =
    ((info : Info)
      → Elem info infos
      → (e : String × Info) × Elem e r × Unexpected expected e.1 × IsNamed e.0 e.1 info)
    × ((e : String × Info)
        → Elem e r
        → Unexpected expected e.1
        → (info : Info) × Elem info infos × IsNamed e.0 e.1 info)

Elem-contains : (s : String) (names : List String) → Elem s names → contains s names ≡ true
Elem-contains s [] m = absurd m
Elem-contains s (n ∷ ns) (inl e) = rw e (ground (arith, eq_refl n))
Elem-contains s (n ∷ ns) (inr m) = ground (arith, Elem-contains s ns m)

contains-Elem : (s : String) (names : List String) → contains s names ≡ true → Elem s names
contains-Elem s [] h = absurd (false-ne-true h)
contains-Elem s (n ∷ ns) h = elim (Bool-cases (n == s)) [
  | inl same ↦ inl (sym ((eq_iff n s).0 same))
  | inr other ↦ inr (contains-Elem s ns (rw other at h))
]

text-eq : {s t : String} → some (text s) ≡ some (text t) → s ≡ t
text-eq h = cc

module _ (expected : List String) where
  unexpected_value :
      (o : Option Value)
      → not (elim o [
        | none ↦ false
        | some v ↦ elim v [ text s ↦ contains s expected | texts l ↦ false ]
      ])
        ≡ true
      → (s : String) → o ≡ some (text s)
      → ¬ (Elem s expected)
  unexpected_value none h s e m = cc
  unexpected_value (some (texts l)) h s e m = cc
  unexpected_value (some (text t)) h s e m =
      let known = Elem-contains t expected (rw (text-eq e) m) in
      absurd (false-ne-true (rw known at h))

  orphan_value :
      (o : Option Value)
      → ((s : String) → o ≡ some (text s) → ¬ (Elem s expected))
      → not (elim o [
        | none ↦ false
        | some v ↦ elim v [ text s ↦ contains s expected | texts l ↦ false ]
      ])
        ≡ true
  orphan_value none h = refl
  orphan_value (some (texts l)) h = refl
  orphan_value (some (text t)) h = elim (Bool-cases (contains t expected)) [
    | inl known ↦ absurd (h t refl (contains-Elem t expected known))
    | inr unknown ↦ rw unknown refl
  ]

  is_orphan-Unexpected : (e : String × Info) → is_orphan expected e ≡ true → Unexpected expected e.1
  unfolding is_orphan cr_name_in
  is_orphan-Unexpected (name, info) h = unexpected_value (lookup "cr_name" info) h

  Unexpected-is_orphan : (e : String × Info) → Unexpected expected e.1 → is_orphan expected e ≡ true
  unfolding is_orphan cr_name_in
  Unexpected-is_orphan (name, info) h = orphan_value (lookup "cr_name" info) h

named-IsNamed : (e : String × Info) → DistinctKeys e.1 → IsNamed e.0 e.1 (named e)
unfolding named
named-IsNamed (name, info) distinct k =
    lookup-update k (("name", text name) ∷ []) info distinct ∙ unfold lookup in refl

Orphans-of :
    (expected : List String) (r : Resources)
    → All (λ (e : String × Info). DistinctKeys e.1) r
    → Orphans expected r (map named (filter (is_orphan expected) r))
Orphans-of expected r distinct = (
  λ info m.
      let (e, there, same) = Elem-of_map named info (filter (is_orphan expected) r) m in
      let (h, test) = Elem-of_filter (is_orphan expected) r there in
      (
        e,
        h,
        is_orphan-Unexpected expected e test,
        rw same (named-IsNamed e (All-Elem (λ (x : String × Info). DistinctKeys x.1) r distinct h)),
      ),
  λ e m h. (
    named e,
    Elem-map named e _ (Elem-filter (is_orphan expected) r m (Unexpected-is_orphan expected e h)),
    named-IsNamed e (All-Elem (λ (x : String × Info). DistinctKeys x.1) r distinct m),
  ),
)

module _ {W T : Type 0} {api : ConfigMapApi W T} {namespace : String}
    (store : ConfigMapLaws api namespace) (json : Json T) where
  -- A `get_orphans` that succeeds returns the metadata of the stored entries of the type whose CR
  -- name is not among the expected names, or is missing: of each of them, with its name where it has
  -- no value for "name", and of nothing else; the stored metadata are dicts, with no key twice.
  pub get_orphans-Orphans :
      (t : String) (expected : List String) (w : W) (infos : List Info)
      → ((r : Resources)
          → view store json w t ≡ ok r
          → All (λ (e : String × Info). DistinctKeys e.1) r)
      → (get_orphans api json namespace t expected w).0 ≡ ok infos
      → (r : Resources) × (view store json w t ≡ ok r) × Orphans expected r infos
  unfolding get_orphans pure
  get_orphans-Orphans t expected w infos distinct h =
      let m = get_resources api json namespace t in
      let rest = λ (r : Resources). pure {S = W} (map named (filter (is_orphan expected) r)) in
      let (r, e, after) = >>=-eq-ok m rest w infos h in
      let (read, same) = get_resources_lem store json t w r e in
      (r, read, rw (← ok-eq (rw after at h)) (Orphans-of expected r (distinct r read)))
