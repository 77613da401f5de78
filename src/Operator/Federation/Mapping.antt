-- ===== src/Operator/Federation/Mapping.antt =====
-- What the operations of `FederationManager` do to the mapping in Keystone.
use openstack_keystone.Prelude.{
  ℕ, String, ◌≡◌, ◌≢◌, refl, sym, ap, ◌∙◌, true, false, not, inl, inr, Option, List, [], ◌∷◌, ◌++◌,
  length, eqb, arith, Bool-cases, if◌then◌else◌, is_some, map,
}
use openstack_keystone.Prelude.Filter.{filter-filter, filter-filter-not, filter_all}
use openstack_keystone.Exec.{ok, pure, ◌>>=◌, ◌>>◌}
use openstack_keystone.Exec.Quiet.{IsOk}
use openstack_keystone.Exec.Inversion.{>>=-IsOk, >>=-eq-ok}
use openstack_keystone.Dict.{Dict}
use openstack_keystone.Operator.Naming.{make_group_name}
use openstack_keystone.Operator.Client.{IdentityClient}
use openstack_keystone.Operator.Federation.{
  Rule, FederationClient, FederationConfig, mapping_name, is_empty, rule_matches_group, other_rules,
  generate_mapping_rule, ensure_identity_provider, ensure_federation_protocol,
  get_current_mapping_rules, update_mapping, add_project_mapping, write_remaining,
  remove_project_mapping, project_rules, sync_federation_mapping, rules_of_mapping,
}
use openstack_keystone.Operator.Federation.Rules.{
  rules_for, generate_mapping_rule-matches, rules_for-replaced, other_rules-replaced,
}

-- Keystone's mappings as documented: `rules_of w m` is the rules of the mapping `m`, none where it
-- does not exist or has no rules. A read returns them, a write that succeeds sets them, and the
-- other calls leave them alone.
pub record MappingLaws {W : Type 0} (identity : IdentityClient W) (client : FederationClient W)
    : Type 0 where
  pub rules_of : W → String → List Rule
  pub get_ok :
      (w : W) (m : String) (found : Option (Option (List Rule)))
      → (client.get_mapping m w).0 ≡ ok found
      → rules_of_mapping found ≡ rules_of w m
  pub get_keeps : (w : W) (m n : String) → rules_of (client.get_mapping n w).1 m ≡ rules_of w m
  pub update_ok :
      (w : W) (m : String) (rules : List Rule)
      → IsOk (client.update_mapping m rules w).0
      → rules_of (client.update_mapping m rules w).1 m ≡ rules
  pub create_ok :
      (w : W) (m : String) (rules : List Rule)
      → IsOk (client.create_mapping m rules w).0
      → rules_of (client.create_mapping m rules w).1 m ≡ rules
  pub get_domain_keeps :
      (w : W) (m d : String) → rules_of (identity.get_domain d w).1 m ≡ rules_of w m
  pub get_provider_keeps :
      (w : W) (m i : String) → rules_of (client.get_identity_provider i w).1 m ≡ rules_of w m
  pub create_provider_keeps :
      (w : W) (m i : String) (r : List String) (d : Option String)
      → rules_of (client.create_identity_provider i r d w).1 m ≡ rules_of w m
  pub get_protocol_keeps :
      (w : W) (m i p : String) → rules_of (client.get_federation_protocol i p w).1 m ≡ rules_of w m
  pub create_protocol_keeps :
      (w : W) (m i p n : String)
      → rules_of (client.create_federation_protocol i p n w).1 m ≡ rules_of w m

empty_list : (l : List Rule) → is_empty l ≡ true → l ≡ []
empty_list [] h = refl
empty_list (x ∷ l) h = cc

-- The projects that have users, with them.
abbrev pub with_users : Dict (List String) → Dict (List String)
with_users [] = []
with_users ((name, []) ∷ rest) = with_users rest
with_users ((name, u ∷ us) ∷ rest) = (name, u ∷ us) ∷ with_users rest

some_rules :
    (f : String × List String → Rule) (ps : Dict (List String)) (other : List Rule)
    → ps ≢ []
    → (if is_empty (map f ps) then other else map f ps) ≡ map f ps
some_rules f [] other ne = absurd (ne refl)
some_rules f (p ∷ ps) other ne = refl

eqb_eq : (a b : ℕ) → eqb a b ≡ true → a ≡ b
eqb_eq a b h = ground arith

-- Where every rule is for another group, none is for this one.
no_rules :
    (g : String) (rules : List Rule)
    → eqb (length (other_rules g rules)) (length rules) ≡ true
    → rules_for g rules ≡ []
no_rules g rules all =
    let others = filter_all (λ r. not (rule_matches_group r g)) rules (eqb_eq _ _ all) in
    ap (rules_for g) (sym others) ∙ filter-filter-not (λ r. rule_matches_group r g) rules

module _ {W : Type 0} {identity : IdentityClient W} {client : FederationClient W}
    (laws : MappingLaws identity client) (config : FederationConfig) where
  open laws use {
    rules_of, get_ok, get_keeps, update_ok, create_ok, get_domain_keeps, get_provider_keeps,
    create_provider_keeps, get_protocol_keeps, create_protocol_keeps,
  }

  -- The rules of the manager's own mapping.
  abbrev pub current : W → List Rule
  current w = rules_of w (mapping_name config)

  ensure_identity_provider_lem :
      (w : W) → current (ensure_identity_provider identity client config w).1 ≡ current w
  unfolding ensure_identity_provider ◌>>=◌
  ensure_identity_provider_lem w =
      let m = mapping_name config in
      let w₁ = (client.get_identity_provider config.idp_name w).1 in
      let w₂ = (identity.get_domain config.sso_domain w₁).1 in
      grind (
        arith,
        get_provider_keeps w m config.idp_name,
        get_domain_keeps w₁ m config.sso_domain,
        create_provider_keeps w₂ m,
      )

  ensure_federation_protocol_lem :
      (w : W) → current (ensure_federation_protocol identity client config w).1 ≡ current w
  unfolding ensure_federation_protocol ◌>>=◌
  ensure_federation_protocol_lem w =
      let m = mapping_name config in
      let w₁ = (client.get_federation_protocol config.idp_name "openid" w).1 in
      ground (
        arith,
        get_protocol_keeps w m config.idp_name "openid",
        create_protocol_keeps w₁ m config.idp_name "openid" (mapping_name config),
      )

  get_current_mapping_rules_lem :
      (w : W) (rules : List Rule)
      → (get_current_mapping_rules identity client config w).0 ≡ ok rules
      → (rules ≡ current w)
        × (current (get_current_mapping_rules identity client config w).1 ≡ current w)
  unfolding get_current_mapping_rules pure
  get_current_mapping_rules_lem w rules h =
      let m = mapping_name config in
      let (found, e, after) =
        >>=-eq-ok (client.get_mapping m) (λ x. pure (rules_of_mapping x)) w rules h in
      (cc (get_ok w m found e, rw after at h), rw after (get_keeps w m m))

  update_mapping_lem :
      (rules : List Rule) (w : W)
      → IsOk (update_mapping identity client config rules w).0
      → current (update_mapping identity client config rules w).1 ≡ rules
  unfolding update_mapping
  update_mapping_lem rules w h =
      let m = mapping_name config in
      let write = λ (x : Option (Option (List Rule))).
        if is_some x then client.update_mapping m rules else client.create_mapping m rules in
      let (found, e, after) = >>=-IsOk (client.get_mapping m) write w h in
      let w₁ = (client.get_mapping m w).1 in
      elim (Bool-cases (is_some found)) [
        | inl exists ↦ rw after (rw exists (update_ok w₁ m rules (rw exists at (rw after at h))))
        | inr missing ↦ rw after (rw missing (create_ok w₁ m rules (rw missing at (rw after at h))))
      ]

  -- Writing rules and then ensuring the protocol leaves exactly those rules.
  write_rules_lem :
      (rules : List Rule) (w : W)
      → let m =
          update_mapping identity client config rules
          >> ensure_federation_protocol identity client config in
        IsOk (m w).0 → current (m w).1 ≡ rules
  write_rules_lem rules w h =
      let write = update_mapping identity client config rules in
      let protocol = ensure_federation_protocol identity client config in
      let (u, e, after) = >>=-IsOk write (λ _. protocol) w h in
      rw after (ensure_federation_protocol_lem (write w).1 ∙ update_mapping_lem rules w (rw e tt))

  module _ (lower : String → String) where
    -- A successful `add_project_mapping` with users makes the new rule the only rule of the
    -- project's group, and keeps the rules of all other groups in their order.
    pub add_project_mapping_lem :
        (project : String) (users : List String) (w : W)
        → is_empty users ≡ false
        → IsOk (add_project_mapping lower identity client config project users w).0
        → let g = make_group_name lower project in
          let after =
            current (add_project_mapping lower identity client config project users w).1 in
          (rules_for g after ≡ generate_mapping_rule lower project users config.sso_domain ∷ [])
          × (other_rules g after ≡ other_rules g (current w))
    unfolding add_project_mapping
    add_project_mapping_lem project users w some_users h =
        let g = make_group_name lower project in
        let rule = generate_mapping_rule lower project users config.sso_domain in
        let own = generate_mapping_rule-matches lower project users config.sso_domain in
        let provider = ensure_identity_provider identity client config in
        let read = get_current_mapping_rules identity client config in
        let write = λ (rules : List Rule).
          update_mapping identity client config (other_rules g rules ++ rule ∷ [])
          >> ensure_federation_protocol identity client config in
        let h' = rw some_users at h in
        let (u, e, after) = >>=-IsOk provider (λ _. read >>= write) w h' in
        let w₁ = (provider w).1 in
        let (rules, e₂, after₂) = >>=-IsOk read write w₁ (rw after at h') in
        let (same, kept) = get_current_mapping_rules_lem w₁ rules e₂ in
        let was = same ∙ ensure_identity_provider_lem w in
        let now =
          write_rules_lem (other_rules g rules ++ rule ∷ []) (read w₁).1
            (rw after₂ at (rw after at h')) in
        rw some_users (
          rw after (
            rw after₂ (
              rw now (
                rules_for-replaced g rules rule own,
                other_rules-replaced g rules rule own ∙ ap (other_rules g) was,
              ))))

    write_remaining_lem :
        (g : String) (rules : List Rule) (w : W)
        → current w ≡ rules
        → IsOk (write_remaining lower identity client config rules (other_rules g rules) w).0
        → let after =
            current
              (write_remaining lower identity client config rules (other_rules g rules) w).1 in
          (other_rules g after ≡ other_rules g rules)
          × (other_rules g rules ≢ [] → rules_for g after ≡ [])
          × (rules ≢ [] → after ≢ [])
    unfolding write_remaining pure
    write_remaining_lem g rules w now h =
        let others = other_rules g rules in
        elim (Bool-cases (eqb (length others) (length rules))) [
          | inl all ↦ rw all (rw now (refl, λ _. no_rules g rules all, λ ne. ne))
          | inr fewer ↦ elim (Bool-cases (is_empty others)) [
            | inl none_left ↦ rw fewer (
                rw none_left
                  (rw now (refl, λ ne. absurd (ne (empty_list others none_left)), λ ne. ne)))
            | inr left ↦
                let now' = update_mapping_lem others w (rw left at (rw fewer at h)) in
                rw fewer (
                  rw left (
                    rw now' (
                      filter-filter (λ r. not (rule_matches_group r g)) rules,
                      λ _. filter-filter-not (λ r. rule_matches_group r g) rules,
                      λ _ e. cc (ap is_empty e, left),
                    )))
          ]
        ]

    -- A successful `remove_project_mapping` keeps the rules of all other groups in their order, and
    -- where there are such rules it leaves none of the project's group. It never empties a mapping
    -- that has rules.
    pub remove_project_mapping_lem :
        (project : String) (w : W)
        → IsOk (remove_project_mapping lower identity client config project w).0
        → let g = make_group_name lower project in
          let after = current (remove_project_mapping lower identity client config project w).1 in
          (other_rules g after ≡ other_rules g (current w))
          × (other_rules g (current w) ≢ [] → rules_for g after ≡ [])
          × (current w ≢ [] → after ≢ [])
    unfolding remove_project_mapping
    remove_project_mapping_lem project w h =
        let g = make_group_name lower project in
        let read = get_current_mapping_rules identity client config in
        let write = λ (rules : List Rule).
          write_remaining lower identity client config rules (other_rules g rules) in
        let (rules, e, after) = >>=-IsOk read write w h in
        let (same, kept) = get_current_mapping_rules_lem w rules e in
        rw after
          (rw (← same) (write_remaining_lem g rules (read w).1 (kept ∙ sym same) (rw after at h)))

    project_rules-with_users :
        (projects : Dict (List String))
        → project_rules lower identity client config projects
          ≡ map
              (λ (p : String × List String). generate_mapping_rule lower p.0 p.1 config.sso_domain)
              (with_users projects)
    unfolding project_rules
    project_rules-with_users [] = refl
    project_rules-with_users ((name, []) ∷ rest) = project_rules-with_users rest
    project_rules-with_users ((name, u ∷ us) ∷ rest) =
        ap (λ rules. generate_mapping_rule lower name (u ∷ us) config.sso_domain ∷ rules)
          (project_rules-with_users rest)

    -- `sync_federation_mapping` by the rules that it has computed.
    sync_by_rules :
        (projects : Dict (List String)) (w : W)
        → IsOk (sync_federation_mapping lower identity client config projects w).0
        → let rules = project_rules lower identity client config projects in
          current (sync_federation_mapping lower identity client config projects w).1
          ≡ (if is_empty rules then current w else rules)
    unfolding sync_federation_mapping pure
    sync_by_rules projects w h =
        let rules = project_rules lower identity client config projects in
        let provider = ensure_identity_provider identity client config in
        let rest =
          if is_empty rules
          then pure tt
          else (update_mapping identity client config rules
              >> ensure_federation_protocol identity client config) in
        let (u, e, after) = >>=-IsOk provider (λ _. rest) w h in
        elim (Bool-cases (is_empty rules)) [
          | inl nothing ↦ rw after (rw nothing (ensure_identity_provider_lem w))
          | inr something ↦ rw after (
              rw something (write_rules_lem rules (provider w).1 (rw something at (rw after at h))))
        ]

    -- A successful `sync_federation_mapping` makes the mapping exactly one rule for each project that
    -- has users, in their order; where no project has users it leaves the rules as they are.
    pub sync_federation_mapping_lem :
        (projects : Dict (List String)) (w : W)
        → IsOk (sync_federation_mapping lower identity client config projects w).0
        → let after = current (sync_federation_mapping lower identity client config projects w).1 in
          (with_users projects ≡ [] → after ≡ current w)
          × (with_users projects ≢ []
              → after
                ≡ map
                    (λ (p : String × List String).
                      generate_mapping_rule lower p.0 p.1 config.sso_domain)
                    (with_users projects))
    sync_federation_mapping_lem projects w h =
        let e = sync_by_rules projects w h in
        let rules = project_rules-with_users projects in
        (
          λ no_users. e ∙ rw (rules, no_users) refl,
          λ some_users. e ∙ rw rules (some_rules _ (with_users projects) (current w) some_users),
        )
