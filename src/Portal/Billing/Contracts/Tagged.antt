-- ===== src/Portal/Billing/Contracts/Tagged.antt =====
-- A project is billed to a contract only by its tag.
use Prim.Native.Char.{code}
use text.Mathlib.TextLemmas.{nil-append, cons-append}
use text.Mathlib.TextEquality.{Char-path}
use openstack_keystone.Prelude.{
  String, ◌≡◌, refl, sym, ap, ap₂, ◌∙◌, Option, none, some, List, [], ◌∷◌, truthy, concat, eqb,
  Elem, ◌==◌, eq_iff, inl, inr, Bool-cases, Option-cases, arith,
}
use openstack_keystone.Exec.{Error, ok, err}
use openstack_keystone.Exec.Inversion.{ok-eq, Result-cases}
use openstack_keystone.Dict.{Dict, lookup, lookup-insert}
use openstack_keystone.Portal.Billing.Contracts.{
  TaggedProject, contract_tag_prefix, after_prefix, contract_numbers, contract_of, note_contract,
  contracts_from, get_project_contracts,
}

after_prefix_lem : (s t r : String) → after_prefix s t ≡ some r → concat s r ≡ t
unfolding after_prefix
after_prefix_lem String.[] t r h = nil-append r ∙ (let same : t ≡ r = cc in sym same)
after_prefix_lem (String.◌∷◌ c s) String.[] r h = cc
after_prefix_lem (String.◌∷◌ c s) (String.◌∷◌ d t) r h = elim (Bool-cases (eqb (code c) (code d))) [
  | inl e ↦
      let rest : after_prefix s t ≡ some r = rw e at h in
      cons-append c s r
      ∙ ap₂ (λ a b. String.◌∷◌ a b) (Char-path c d (ground arith)) (after_prefix_lem s t r rest)
  | inr e ↦ let none_left : none ≡ some r = rw e at h in cc
]

-- A number comes from a tag.
contract_numbers_lem :
    (tags : List String) (number : String)
    → Elem number (contract_numbers tags)
    → Elem (concat contract_tag_prefix number) tags
unfolding contract_numbers
contract_numbers_lem [] number m = absurd m
contract_numbers_lem (tag ∷ tags) number m =
    elim (Option-cases (after_prefix contract_tag_prefix tag)) [
      | inl e ↦ inr (contract_numbers_lem tags number (rw (e, contract_numbers) at m))
      | inr (n, e) ↦ elim (rw (e, contract_numbers) at m) [
        | inl same ↦
            inl
              (ap (concat contract_tag_prefix) same ∙ after_prefix_lem contract_tag_prefix tag n e)
        | inr rest ↦ inr (contract_numbers_lem tags number rest)
      ]
    ]

-- The contract of a project is its only number.
contract_of_lem :
    (name : String) (numbers : List String) (number : String)
    → contract_of name numbers ≡ ok (some number)
    → Elem number numbers
unfolding contract_of
contract_of_lem name [] number h = let e : none ≡ some number = ok-eq h in cc
contract_of_lem name (n ∷ []) number h = elim (Bool-cases (truthy n)) [
  | inl e ↦
      let same : some n ≡ some number = ok-eq (rw e at h) in let back : number ≡ n = cc in inl back
  | inr e ↦ absurd (raised _ (rw e at h))
]
  where
    raised : (x : Error) → err x ≡ ok (some number) → ⊥
    raised x e = cc
contract_of_lem name (n ∷ other ∷ more) number h = cc

-- The entry is that of a project in the list, which has the contract's tag.
pub IsTagged : List TaggedProject → String → String × String → Type 0
IsTagged projects id entry =
    (p : TaggedProject) × Elem p projects
    × (p.id ≡ id)
    × (p.name ≡ entry.0)
    × Elem (concat contract_tag_prefix entry.1) p.tags

module _ (all : List TaggedProject) where
  abbrev AllTagged : Dict (String × String) → Type 0
  AllTagged m =
      (id : String) (entry : String × String) → lookup id m ≡ some entry → IsTagged all id entry

  note_contract-AllTagged :
      (p : TaggedProject) (contract : Option String) (m : Dict (String × String))
      → Elem p all
      → contract_of p.name (contract_numbers p.tags) ≡ ok contract
      → AllTagged m
      → AllTagged (note_contract p contract m)
  unfolding note_contract IsTagged
  note_contract-AllTagged p none m is h k id entry e = k id entry e
  note_contract-AllTagged p (some number) m is h k id entry e = elim (Bool-cases (p.id == id)) [
    | inl same ↦
        let found : some (p.name, number) ≡ some entry =
          sym (lookup-insert p.id id (p.name, number) m ∙ (rw same refl)) ∙ e in
        let pair : (p.name, number) ≡ entry = cc in
        let tagged : Elem (concat contract_tag_prefix number) p.tags =
          contract_numbers_lem p.tags number
            (contract_of_lem p.name (contract_numbers p.tags) number h) in
        (p, is, (eq_iff p.id id).0 same, ap (λ x. x.0) pair, rw (← ap (λ x. x.1) pair) tagged)
    | inr other ↦ k id entry (sym (lookup-insert p.id id (p.name, number) m ∙ (rw other refl)) ∙ e)
  ]

  contracts_from-AllTagged :
      (ps : List TaggedProject) (m out : Dict (String × String))
      → ((p : TaggedProject) → Elem p ps → Elem p all)
      → AllTagged m
      → contracts_from m ps ≡ ok out
      → AllTagged out
  unfolding contracts_from
  contracts_from-AllTagged [] m out is k h = let same : m ≡ out = ok-eq h in rw (← same) k
  contracts_from-AllTagged (p ∷ ps) m out is k h =
      elim (Result-cases (contract_of p.name (contract_numbers p.tags))) [
        | inl (contract, e) ↦
            contracts_from-AllTagged ps (note_contract p contract m) out (λ q n. is q (inr n))
              (note_contract-AllTagged p contract m (is p (inl refl)) e k)
              (rw (e, contracts_from) at h)
        | inr (x, e) ↦ absurd (raised x (rw (e, contracts_from) at h))
      ]
    where
      raised : (x : Error) → err x ≡ ok out → ⊥
      raised x e = cc

  -- Every entry of the map that is returned is that of a listed project, with its name, and with
  -- the contract of one of its tags.
  pub get_project_contracts-IsTagged :
      (out : Dict (String × String)) (id : String) (entry : String × String)
      → get_project_contracts all ≡ ok out
      → lookup id out ≡ some entry
      → IsTagged all id entry
  unfolding get_project_contracts lookup
  get_project_contracts-IsTagged out id entry h =
      contracts_from-AllTagged all [] out (λ p m. m) (λ i e found. absurd (nothing e found)) h id
        entry
    where
      nothing : (e : String × String) → none ≡ some e → ⊥
      nothing e h = cc
