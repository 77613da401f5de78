-- ===== src/Operator/Handlers/Conflict.antt =====
-- Several CRs for one project: what the handlers then leave alone.
use Prim.Native.Char.{Char}
use text.Mathlib.TextLemmas.{nil-append, cons-append}
use openstack_keystone.Prelude.{
  suc, String, ◌≡◌, ◌≢◌, refl, sym, ◌∙◌, true, false, none, some, List, [], ◌∷◌, present, or_else,
  truthy, ◌==◌, eq_iff, concat, Elem, Elem-filter, Bool-cases, ◌⊎◌, inl, inr, arith,
}
use openstack_keystone.Exec.{temporary, exception, ok, err, pure, raise, modify, ◌>>=◌, catch}
use openstack_keystone.Exec.Keeps.{Keeps}
use openstack_keystone.Exec.Inversion.{Result-cases}
use openstack_keystone.Operator.Claims.{
  ProjectCr, Key, cr_identity, first_claim, find_project_owner_cr, find_duplicate_project_crs,
  cr_precedence_key,
}
use openstack_keystone.Operator.Claims.Exclusion.{
  namespace_of, name_of, IsClaim, SameCr, owner_for, owner_for-none, is_duplicate-IsClaim,
}
use openstack_keystone.Operator.Federation.{is_empty}
use openstack_keystone.Operator.Handling.{
  on_cloud, set_patch, set_patch_at, increment, decrement, emit, finally, fail,
  fail_unless_permanent,
}
use openstack_keystone.Operator.Handlers.{
  ProjectSpec, ProjectStatus, CrMeta, Services, ProjectRun, condition, put_condition, set_phase,
  note_error, try_list_project_crs, listed_project_crs, required,
}
use openstack_keystone.Operator.Handlers.Create.{
  start_patch, refuse_if_owned, check_owner, create_body, create_project,
}
use openstack_keystone.Operator.Handlers.Delete.{delete_if_unreferenced, delete_project_handler}

cons_truthy : (c : Char) (s : String) → truthy (String.◌∷◌ c s) ≡ true
cons_truthy c s = elim (Bool-cases (String.◌∷◌ c s == "")) [
  | inl e ↦ absurd (cons_nil ((eq_iff (String.◌∷◌ c s) "").0 e))
  | inr other ↦ rw other refl
]
  where
    cons_nil : String.◌∷◌ c s ≡ "" → ⊥
    cons_nil h = cc

-- An owner's identity is never an empty text.
truthy-slash : (s t : String) → truthy (concat s (concat "/" t)) ≡ true
truthy-slash String.[] t =
    rw (nil-append (concat "/" t), cons-append "/" "" t) (cons_truthy "/" (concat "" t))
truthy-slash (String.◌∷◌ c s) t =
    rw (cons-append c s (concat "/" t)) (cons_truthy c (concat s (concat "/" t)))

first_claim-present :
    (k : Key) (crs : List ProjectCr) → first_claim k crs ≢ none → present (first_claim k crs) ≡ true
unfolding first_claim cr_identity
first_claim-present k [] h = absurd (h refl)
first_claim-present k (cr ∷ crs) h = ground (
  arith,
  truthy-slash (or_else cr.meta_namespace "") (or_else cr.meta_name ""),
  first_claim-present k crs,
)

-- The CR that a handler runs for, as the list of CRs would have it.
abbrev pub self_cr : CrMeta → String → String → ProjectCr
self_cr meta project domain = record {
  meta_namespace = some meta.cr_namespace;
  meta_name = some meta.cr_name;
  creation_timestamp = meta.creation_timestamp;
  deletion_timestamp = none;
  spec_name = some project;
  spec_domain = some domain;
  status_project_id = none;
}

-- A CR that already has the project stands in the way.
owner_found :
    (crs : List ProjectCr) (project domain : String) (meta : CrMeta) (b : ProjectCr)
    → Elem b crs
    → IsClaim project domain b
    → ¬ (SameCr (self_cr meta project domain) b)
    → present b.status_project_id ≡ true
    → present (owner_for crs project domain (self_cr meta project domain)) ≡ true
unfolding find_project_owner_cr cr_precedence_key
owner_found crs project domain meta b m claim ne provisioned =
    first_claim-present (cr_precedence_key (self_cr meta project domain))
      (find_duplicate_project_crs crs meta.cr_namespace meta.cr_name project domain)
      λ none_found. no (
        sym provisioned
        ∙ (owner_for-none crs project domain (self_cr meta project domain) b none_found m claim
            ne).0)
  where
    no : true ≡ false → ⊥
    no h = cc

not_empty : (l : List ProjectCr) → (x : ProjectCr) × Elem x l → is_empty l ≡ false
not_empty [] (x, m) = absurd m
not_empty (y ∷ l) h = refl

duplicates :
    (crs : List ProjectCr) (project domain : String) (meta : CrMeta) (b : ProjectCr)
    → Elem b crs
    → IsClaim project domain b
    → ¬ (SameCr (self_cr meta project domain) b)
    → (x : ProjectCr) × Elem x
        (find_duplicate_project_crs crs meta.cr_namespace meta.cr_name project domain)
unfolding find_duplicate_project_crs
duplicates crs project domain meta b m claim ne = (
  b,
  Elem-filter _ crs m
      (is_duplicate-IsClaim project domain (self_cr meta project domain) b claim ne),
)

-- Two CRs are the same where they cannot be told apart.
same_or_not : (a b : ProjectCr) → ¬ ¬ (SameCr a b) → SameCr a b
same_or_not a b h = elim (Bool-cases (namespace_of a == namespace_of b)) [
  | inr other ↦ absurd (h λ same. let e = (eq_iff (namespace_of a) (namespace_of b)).1 same.0 in cc)
  | inl same_namespace ↦ elim (Bool-cases (name_of a == name_of b)) [
    | inr other ↦ absurd (h λ same. let e = (eq_iff (name_of a) (name_of b)).1 same.1 in cc)
    | inl same_name ↦ (
      (eq_iff (namespace_of a) (namespace_of b)).0 same_namespace,
      (eq_iff (name_of a) (name_of b)).0 same_name,
    )
  ]
]

module _ {Q W : Type 0} (services : Services Q W) (meta : CrMeta) (spec : ProjectSpec Q)
    (s : ProjectRun W) where
  abbrev project_of : String
  project_of = or_else spec.name ""

  abbrev domain_of : String
  domain_of = or_else spec.domain ""

  begun : ProjectRun W
  begun = record s { entered = suc s.entered; patch = start_patch meta s.patch }

  -- the cloud after the Kubernetes configuration is loaded
  abbrev loaded : W
  loaded = (services.get_core_api s.cloud).1

  stopped :
      (crs : List ProjectCr)
      → (services.get_core_api s.cloud).0 ≡ ok tt
      → (services.list_project_crs (services.get_core_api s.cloud).1).0 ≡ ok crs
      → present spec.name ≡ true
      → present spec.domain ≡ true
      → present (owner_for crs project_of domain_of (self_cr meta project_of domain_of)) ≡ true
      → create_body services meta spec begun ≡ (
        err (exception (concat "Project is already managed: " project_of)),
        record begun { cloud = (services.list_project_crs (services.get_core_api s.cloud).1).1 },
      )
  unfolding begun create_body required check_owner refuse_if_owned listed_project_crs
      try_list_project_crs catch pure raise on_cloud ◌>>=◌
  stopped crs configured listed named in_domain owned =
      rw named (rw in_domain (rw configured (rw listed (rw owned refl))))

  -- A second CR does not adopt a project: where the CR has a name and a domain, the Kubernetes
  -- configuration loads and the CRs can be listed, and another CR in the list, not being deleted,
  -- has a project ID for the same project and domain, `create_project` asks for a retry, sets the
  -- phase to Error, and does nothing to the cloud but load the configuration and list the CRs.
  pub create_project_conflict :
      (crs : List ProjectCr) (b : ProjectCr)
      → (services.get_core_api s.cloud).0 ≡ ok tt
      → (services.list_project_crs (services.get_core_api s.cloud).1).0 ≡ ok crs
      → present spec.name ≡ true
      → present spec.domain ≡ true
      → Elem b crs
      → IsClaim (or_else spec.name "") (or_else spec.domain "") b
      → ¬ (SameCr (self_cr meta (or_else spec.name "") (or_else spec.domain "")) b)
      → present b.status_project_id ≡ true
      → let end = create_project services meta spec s in
        ((m : String) × (end.0 ≡ err (temporary m)))
        × (end.1.patch.phase ≡ some "Error")
        × (end.1.cloud ≡ (services.list_project_crs (services.get_core_api s.cloud).1).1)
  unfolding begun create_project finally increment decrement set_patch modify catch
      fail_unless_permanent fail note_error condition set_patch_at put_condition set_phase emit
      ◌>>=◌
  create_project_conflict crs b configured listed named in_domain m claim ne provisioned =
      let e =
        stopped crs configured listed named in_domain
          (owner_found crs project_of domain_of meta b m claim ne provisioned) in
      rw e ((_, refl), refl, refl)

  -- A deletion spares a shared project: where the status has a project ID, the Kubernetes
  -- configuration loads and the CRs can be listed, and another CR in the list, not being deleted, is
  -- for the same project and domain, whether or not it has a project ID, `delete_project_handler`
  -- returns and does nothing to the cloud but load the configuration and list the CRs.
  pub delete_project_handler_shared :
      (crs : List ProjectCr) (b : ProjectCr)
      → (services.get_core_api s.cloud).0 ≡ ok tt
      → (services.list_project_crs (services.get_core_api s.cloud).1).0 ≡ ok crs
      → Elem b crs
      → IsClaim (or_else spec.name "") (or_else spec.domain "") b
      → ¬ (SameCr (self_cr meta (or_else spec.name "") (or_else spec.domain "")) b)
      → (status : ProjectStatus) → present status.project_id ≡ true
      → let end = delete_project_handler services meta spec status s in
        (end.0 ≡ ok tt)
        × (end.1.cloud ≡ (services.list_project_crs (services.get_core_api s.cloud).1).1)
  unfolding delete_project_handler delete_if_unreferenced listed_project_crs try_list_project_crs
      increment decrement emit modify catch pure raise on_cloud ◌>>=◌
  delete_project_handler_shared crs b configured listed m claim ne status has_id = rw has_id (
      rw configured (
        rw listed
          (rw (not_empty _ (duplicates crs project_of domain_of meta b m claim ne)) (refl, refl))))

  -- No CR of the list but the one that is deleted asks for the project.
  abbrev Unreferenced : List ProjectCr → Type 0
  Unreferenced crs =
      (b : ProjectCr)
      → Elem b crs
      → IsClaim (or_else spec.name "") (or_else spec.domain "") b
      → SameCr (self_cr meta (or_else spec.name "") (or_else spec.domain "")) b

  unreferenced :
      (crs : List ProjectCr)
      → is_empty
          (find_duplicate_project_crs crs meta.cr_namespace meta.cr_name project_of domain_of)
        ≡ true
      → Unreferenced crs
  unreferenced crs empty b m claim =
      let self = self_cr meta project_of domain_of in
      let others = λ (ne : ¬ (SameCr self b)).
        not_empty _ (duplicates crs project_of domain_of meta b m claim ne) in
      same_or_not self b (λ ne. let e = others ne in cc)

  -- A deletion fails closed: whatever the status is, `delete_project_handler` keeps every property
  -- of the cloud that loading the configuration and listing the CRs keep, unless the status has a
  -- project ID, the configuration loaded, and the CRs were listed without another one, not being
  -- deleted, for the same project and domain.
  pub delete_project_handler_fails_closed :
      (P : W → Type 0)
      → Keeps P services.get_core_api
      → Keeps P services.list_project_crs
      → P s.cloud
      → (status : ProjectStatus)
      → P (delete_project_handler services meta spec status s).1.cloud
        ⊎ ((present status.project_id ≡ true)
            × ((services.get_core_api s.cloud).0 ≡ ok tt)
            × ((crs : List ProjectCr) × ((services.list_project_crs
                    (services.get_core_api s.cloud).1).0
                  ≡ ok crs)
                × ((b : ProjectCr)
                    → Elem b crs
                    → IsClaim (or_else spec.name "") (or_else spec.domain "") b
                    → SameCr (self_cr meta (or_else spec.name "") (or_else spec.domain "")) b)))
  unfolding delete_project_handler delete_if_unreferenced listed_project_crs try_list_project_crs
      increment decrement emit modify catch pure raise on_cloud ◌>>=◌
  delete_project_handler_fails_closed P loads lists p status =
      let p' = lists.at loaded (loads.at s.cloud p) in
      elim (Bool-cases (present status.project_id)) [
        | inr without ↦ inl (rw without p)
        | inl has_id ↦ elim (Result-cases (services.get_core_api s.cloud).0) [
          | inr (e, failed) ↦ inl (rw has_id (rw failed (loads.at s.cloud p)))
          | inl (u, configured) ↦ elim (Result-cases (services.list_project_crs loaded).0) [
            | inr (e, failed) ↦ inl (rw has_id (rw configured (rw failed p')))
            | inl (crs, listed) ↦
                elim (Bool-cases (
                  is_empty (
                    find_duplicate_project_crs crs meta.cr_namespace meta.cr_name project_of
                      domain_of))) [
                        | inl empty ↦
                            inr (has_id, configured, (crs, listed, unreferenced crs empty))
                        | inr others ↦ inl (rw has_id (rw configured (rw listed (rw others p'))))
                      ]
          ]
        ]
      ]
