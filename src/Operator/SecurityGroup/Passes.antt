-- ===== src/Operator/SecurityGroup/Passes.antt =====
-- The two passes of `ensure_security_groups`: what the first hands to the second.
use openstack_keystone.Prelude.{
  String, ◌≡◌, refl, sym, ap, ◌∙◌, true, Option, none, some, List, [], ◌∷◌, ◌++◌, map, All, or_else,
  is_some, ◌==◌, eq_refl, Bool-cases, inl, inr,
}
use openstack_keystone.Exec.{ok, err, exception, pure, ◌>>=◌, ◌>>◌, lift, for_each}
use openstack_keystone.Exec.Quiet.{
  IsOk, Quiet, Quiet-pure, Quiet-bind, Quiet-bind_post, Quiet-for_each, Quiet-for_each-All,
  quiet_rules,
}
use openstack_keystone.Exec.Inversion.{>>=-eq-ok, ok-eq}
use openstack_keystone.Dict.{Dict, lookup, insert, lookup-insert}
use openstack_keystone.Operator.SecurityGroup.{
  SecurityGroup, SecurityGroupRule, SecurityGroupSpec, SecurityGroupStatus, SecurityGroupClient,
  index_id, group_or_new, create_rule, ensure_rule, create_groups, create_rules,
  ensure_security_groups, delete_security_group, delete_security_groups,
}

abbrev pub Known : Dict String → String → Type 0
Known ids n = is_some (lookup n ids) ≡ true

Known-insert_self : (n i : String) (ids : Dict String) → Known (insert n i ids) n
Known-insert_self n i ids = rw (lookup-insert n n i ids) (rw (eq_refl n) refl)

Known-insert : (n m i : String) (ids : Dict String) → Known ids m → Known (insert n i ids) m
Known-insert n m i ids h =
    rw (lookup-insert n m i ids)
      (elim (Bool-cases (n == m)) [ inl same ↦ rw same refl | inr other ↦ rw other h ])

abbrev pub spec_names : List SecurityGroupSpec → List String
spec_names = map (λ spec. spec.name)

abbrev pub status_names : List SecurityGroupStatus → List String
status_names = map (λ status. status.name)

status_names-append :
    (rs : List SecurityGroupStatus) (r : SecurityGroupStatus) (ns : List String)
    → status_names (rs ++ r ∷ []) ++ ns ≡ status_names rs ++ r.name ∷ ns
status_names-append [] r ns = refl
status_names-append (x ∷ rs) r ns = ap (λ l. x.name ∷ l) (status_names-append rs r ns)

append_empty : (ns : List String) → ns ++ [] ≡ ns
append_empty [] = refl
append_empty (n ∷ ns) = ap (λ l. n ∷ l) (append_empty ns)

-- From `results` and `ids`, the pass ends with the names of `specs` added and all of them known.
record Collects (specs : List SecurityGroupSpec) (results : List SecurityGroupStatus)
    (ids : Dict String) (end : List SecurityGroupStatus × Dict String) : Type 0 where
  names : status_names end.0 ≡ status_names results ++ spec_names specs
  specs_known : All (λ spec. Known end.1 spec.name) specs
  still_known : (n : String) → Known ids n → Known end.1 n

by_lookup :
    (o : Option String)
    → is_some o ≡ true
    → IsOk (elim o [ none ↦ err (exception "KeyError") | some v ↦ ok v ])
by_lookup none h = cc
by_lookup (some v) h = tt

abbrev status_of : SecurityGroupSpec → SecurityGroup → SecurityGroupStatus
status_of spec sg = record { name = spec.name; id = sg.id }

module _ {W : Type 0} (client : SecurityGroupClient W) where
  create_groups-Collects :
      (project : String) (specs : List SecurityGroupSpec) (results : List SecurityGroupStatus)
      (ids : Dict String) (w : W) (end : List SecurityGroupStatus × Dict String)
      → (create_groups client project specs results ids w).0 ≡ ok end
      → Collects specs results ids end
  unfolding create_groups pure
  create_groups-Collects project [] results ids w end h = rw (← ok-eq h) (record {
    names = sym (append_empty (status_names results));
    specs_known = tt;
    still_known = λ n k. k;
  })
  create_groups-Collects project (spec ∷ specs) results ids w end h =
      let first = client.get_security_group spec.name project in
      let new = λ (o : Option SecurityGroup).
        group_or_new client spec.name project (or_else spec.description "") o in
      let status = status_of spec in
      let rest = λ (sg : SecurityGroup).
        create_groups client project specs (results ++ status sg ∷ [])
          (insert spec.name sg.id ids) in
      let (found, e, after) = >>=-eq-ok first (λ o. new o >>= rest) w end h in
      let w' = (first w).1 in
      let (sg, e', after') = >>=-eq-ok (new found) rest w' end (rw after at h) in
      let last =
        create_groups-Collects project specs (results ++ status sg ∷ [])
          (insert spec.name sg.id ids) (new found w').1 end (rw after' at (rw after at h)) in
      record {
        names = last.names ∙ status_names-append results (status sg) (spec_names specs);
        specs_known =
            (last.still_known spec.name (Known-insert_self spec.name sg.id ids), last.specs_known);
        still_known = λ n k. last.still_known n (Known-insert spec.name n sg.id ids k);
      }

  -- An `ensure_security_groups` that succeeds reports one status for each specification, under its
  -- name and in its order.
  pub ensure_security_groups-names :
      (project : String) (specs : List SecurityGroupSpec) (w : W) (rs : List SecurityGroupStatus)
      → (ensure_security_groups client project specs w).0 ≡ ok rs
      → status_names rs ≡ spec_names specs
  unfolding ensure_security_groups pure
  ensure_security_groups-names project specs w rs h =
      let m = create_groups client project specs [] [] in
      let rest = λ (created : List SecurityGroupStatus × Dict String).
        for_each specs (create_rules client created.1) >> pure created.0 in
      let (end, e, after) = >>=-eq-ok m rest w rs h in
      let w' = (m w).1 in
      let (u, e', after') =
        >>=-eq-ok (for_each specs (create_rules client end.1)) (λ _. pure end.0) w' rs
          (rw after at h) in
      ap status_names (sym (ok-eq (rw after' at (rw after at h))))
      ∙ (create_groups-Collects project specs [] [] w end e).names

  -- Every call of the client answers.
  pub record Answers : Type 0 where
    pub get_answers : (n p : String) → Quiet (client.get_security_group n p)
    pub create_answers :
        (n p d : String) (tags : List String) → Quiet (client.create_security_group n p d tags)
    pub create_rule_answers :
        (sg : String) (rule : SecurityGroupRule) (remote : Option String)
        → Quiet (create_rule client sg rule remote)

  lift-Quiet :
      (n : String) (ids : Dict String) → Known ids n → Quiet {S = W} (lift (index_id n ids))
  unfolding index_id lift
  lift-Quiet n ids h = record { at = λ s. by_lookup (lookup n ids) h }

  module _ (answers : Answers) where
    open answers use {get_answers, create_answers, create_rule_answers}

    group_or_new-Quiet :
        (n p d : String) (o : Option SecurityGroup) → Quiet (group_or_new client n p d o)
    unfolding group_or_new
    group_or_new-Quiet n p d (some sg) = Quiet-pure sg
    group_or_new-Quiet n p d none = create_answers n p d _

    create_groups-Quiet :
        (project : String) (specs : List SecurityGroupSpec) (results : List SecurityGroupStatus)
        (ids : Dict String)
        → Quiet (create_groups client project specs results ids)
    unfolding create_groups
    create_groups-Quiet project [] results ids = Quiet-pure (results, ids)
    create_groups-Quiet project (spec ∷ specs) results ids =
        search (quiet_rules, get_answers, group_or_new-Quiet, create_groups-Quiet project specs)

    ensure_rule-Quiet :
        (ids : Dict String) (sg : String) (rule : SecurityGroupRule)
        → Quiet (ensure_rule client ids sg rule)
    unfolding ensure_rule
    ensure_rule-Quiet ids sg rule = search (quiet_rules, create_rule_answers)

    create_rules-Quiet :
        (ids : Dict String) (spec : SecurityGroupSpec)
        → Known ids spec.name
        → Quiet (create_rules client ids spec)
    unfolding create_rules
    create_rules-Quiet ids spec h =
        Quiet-bind (lift (index_id spec.name ids)) _ (lift-Quiet spec.name ids h) (λ sg.
          Quiet-for_each (or_else spec.rules []) (ensure_rule client ids sg)
            (ensure_rule-Quiet ids sg))

    -- Where every call of the client answers, so does `ensure_security_groups`: the second pass
    -- finds the ID of every group that it names.
    pub ensure_security_groups-Quiet :
        (project : String) (specs : List SecurityGroupSpec)
        → Quiet (ensure_security_groups client project specs)
    unfolding ensure_security_groups
    ensure_security_groups-Quiet project specs =
        Quiet-bind_post (λ end. All (λ spec. Known end.1 spec.name) specs)
          (create_groups client project specs [] [])
          (λ created. for_each specs (create_rules client created.1) >> pure created.0)
          (create_groups-Quiet project specs [] [])
          (λ w end e. (create_groups-Collects project specs [] [] w end e).specs_known)
          (λ end known.
            Quiet-bind (for_each specs (create_rules client end.1)) _
              (Quiet-for_each-All (λ spec. Known end.1 spec.name) specs (create_rules client end.1)
                (create_rules-Quiet end.1) known)
              (λ _. Quiet-pure end.0))

  delete_security_group-Quiet : (id : Option String) → Quiet (delete_security_group client id)
  unfolding delete_security_group
  delete_security_group-Quiet id = search quiet_rules depth 8

  -- Whatever the calls answer, `delete_security_groups` returns.
  pub delete_security_groups-Quiet :
      (statuses : List (Option String)) → Quiet (delete_security_groups client statuses)
  unfolding delete_security_groups
  delete_security_groups-Quiet statuses = search (quiet_rules, delete_security_group-Quiet)
