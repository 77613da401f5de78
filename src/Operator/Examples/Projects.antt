-- ===== src/Operator/Examples/Projects.antt =====
-- The project handlers over one record: the CRs are a fixed list, and everything else outside answers.
use openstack_keystone.Prelude.{
  ℕ, String, ◌≡◌, refl, true, none, some, List, [], ◌∷◌, inl, eq_iff, ◌⊎◌, Elem,
}
use openstack_keystone.Exec.{exception, temporary, Result, ok, err}
use openstack_keystone.Exec.Keeps.{Keeps}
use openstack_keystone.Operator.Claims.{ProjectCr}
use openstack_keystone.Operator.Claims.Exclusion.{IsClaim, SameCr}
use openstack_keystone.Operator.Network.{NetworkClient}
use openstack_keystone.Operator.SecurityGroup.{SecurityGroupClient}
use openstack_keystone.Operator.Quota.{QuotaClient}
use openstack_keystone.Operator.TransitKey.{BaoApi}
use openstack_keystone.Operator.Registry.{RegistryHandle}
use openstack_keystone.Operator.Handlers.{ProjectSpec, ProjectStatus, CrMeta, Services, ProjectRun}
use openstack_keystone.Operator.Handlers.Create.{create_project}
use openstack_keystone.Operator.Handlers.Delete.{delete_project_handler}
use openstack_keystone.Operator.Handlers.Update.{update_project}
use openstack_keystone.Operator.Handlers.Update.Diff.{Change}
use openstack_keystone.Operator.Handlers.Gauge.Delete.{delete_project_handler-Counted}
use openstack_keystone.Operator.Handlers.Gauge.Update.{update_project_without_id}
use openstack_keystone.Operator.Handling.Outcome.{Settled}
use openstack_keystone.Operator.Handlers.Outcome.{update_project-Settled}
use openstack_keystone.Operator.Handlers.Conflict.{
  self_cr, create_project_conflict, delete_project_handler_fails_closed,
  delete_project_handler_shared,
}
use openstack_keystone.Operator.Examples.Cloud.{World, new_world, identity, federation, same}
use openstack_keystone.Operator.Examples.Claiming.{
  first_cr, first_name, second_name, letters_differ,
}

abbrev no_networks : NetworkClient World
no_networks = record {
  get_network = λ n p w. (ok (some (record { id = n; name = n })), w);
  create_network = λ n p t w. (ok (record { id = n; name = n }), w);
  get_subnet = λ n p w. (ok (some (record { id = n })), w);
  create_subnet = λ n i c d s t w. (ok (record { id = n }), w);
  get_router = λ n p w. (ok (some (record { id = n })), w);
  create_router = λ n p e s t w. (ok (record { id = n }), w);
  get_external_network = λ n w. (ok none, w);
  add_router_interface = λ r s w. (ok tt, w);
  remove_router_interface = λ r s w. (ok tt, w);
  delete_router = λ r w. (ok tt, w);
  delete_subnet = λ s w. (ok tt, w);
  delete_network = λ n w. (ok tt, w);
}

abbrev no_groups : SecurityGroupClient World
no_groups = record {
  get_security_group = λ n p w. (ok none, w);
  create_security_group = λ n p d t w. (ok (record { id = n }), w);
  create_security_group_rule = λ sg d p lo hi prefix remote e w. (ok tt, w);
  delete_security_group = λ i w. (ok tt, w);
}

abbrev open_quotas : QuotaClient ℕ World
open_quotas = record {
  set_compute_quotas = λ p q w. (ok tt, w);
  set_volume_quotas = λ p q w. (ok tt, w);
  set_network_quotas = λ p q w. (ok tt, w);
}

abbrev no_bao : BaoApi World
no_bao = record {
  address = none;
  read_token = λ w. (ok "", w);
  request = λ addr token method path body w. (ok 200, w);
}

abbrev pub empty_registry : RegistryHandle World
empty_registry = record {
  api = record {
    read_namespaced_config_map = λ n m w. (ok (some []), w);
    create_namespaced_config_map = λ n m w. (ok tt, w);
    patch_namespaced_config_map = λ n m d w. (ok tt, w);
  };
  json = record { dumps = λ r. "{}"; loads = λ t. ok []; empty_object = "{}" };
  namespace = "ns";
}

abbrev with_crs : Result (List ProjectCr) → Services ℕ World
with_crs crs = record {
  identity = identity;
  federation = federation;
  networks = no_networks;
  security_groups = no_groups;
  quotas = open_quotas;
  bao = no_bao;
  registry = empty_registry;
  get_core_api = λ w. (ok tt, w);
  list_project_crs = λ w. (crs, w);
  read_config_map = λ n m w. (ok none, w);
  now = λ w. "now";
  is_valid_uuid = λ t. true;
  lower = same;
  allowed = [];
}

abbrev web : ProjectSpec ℕ
web = record {
  name = some "web";
  domain = some "sso";
  description = none;
  enabled = none;
  contract_number = some "17";
  quotas = none;
  networks = none;
  security_groups = none;
  role_bindings = none;
  managed = none;
  federation_ref = none;
}

abbrev second_meta : CrMeta
second_meta = record {
  cr_namespace = "ns";
  cr_name = "b";
  creation_timestamp = some "2025-01-03";
  generation = none;
}

abbrev status_of : ProjectStatus
status_of = record {
  phase = some "Ready";
  project_id = some "p";
  group_id = some "g";
  networks = none;
  security_groups = none;
  conditions = none;
}

abbrev unmade : ProjectStatus
unmade = record status_of { project_id = none; group_id = none }

abbrev idle : ProjectRun World
idle = record {
  cloud = new_world;
  patch = record {
    phase = none;
    observed_generation = none;
    conditions = none;
    project_id = none;
    group_id = none;
    networks = none;
    security_groups = none;
    last_sync_time = none;
  };
  entered = 0;
  left = 0;
  events = [];
}

abbrev quota_change : List Change
quota_change =
    record {
      path = "spec" ∷ "quotas" ∷ [];
      old_text = none;
      new_text = none;
      old_annotations = [];
      new_annotations = [];
    }
    ∷ []

abbrev owner : ProjectCr
owner = record first_cr { status_project_id = some "p" }

abbrev alone : Services ℕ World
alone = with_crs (ok [])

abbrev shared : Services ℕ World
shared = with_crs (ok (owner ∷ []))

abbrev unlistable : Services ℕ World
unlistable = with_crs (err (exception "Forbidden"))

abbrev unconfigured : Services ℕ World
unconfigured = record alone { get_core_api = λ w. (err (exception "No configuration"), w) }

delete_project_handler-Counted_example :
    let end = (delete_project_handler unconfigured second_meta web status_of idle).1 in
    (end.entered ≡ 1) × (end.left ≡ 0)
delete_project_handler-Counted_example =
    delete_project_handler-Counted unconfigured second_meta web status_of idle

update_project_without_id_example :
    let end = (update_project alone second_meta web unmade quota_change idle).1 in
    (end.entered ≡ 2) × (end.left ≡ 3)
update_project_without_id_example =
    update_project_without_id alone second_meta web unmade quota_change idle refl refl refl refl

update_project-Settled_example :
    let end = update_project alone second_meta web status_of quota_change idle in
    Settled end.0 end.1.patch.phase
update_project-Settled_example =
    update_project-Settled alone second_meta web status_of quota_change idle

owned_by_first : IsClaim "web" "sso" owner
owned_by_first = record {
  has_namespace = refl;
  has_name = refl;
  live = refl;
  of_project = refl;
  of_domain = refl;
}

another : ¬ (SameCr (self_cr second_meta "web" "sso") owner)
another h = letters_differ ((eq_iff second_name first_name).1 h.1)

create_project_conflict_example :
    let end = create_project shared second_meta web idle in
    ((m : String) × (end.0 ≡ err (temporary m)))
    × (end.1.patch.phase ≡ some "Error")
    × (end.1.cloud ≡ new_world)
create_project_conflict_example =
    create_project_conflict shared second_meta web idle (owner ∷ []) owner refl refl refl refl
      (inl refl) owned_by_first another refl

untouched : {A : Type 0} (r : Result A) → Keeps (λ (w : World). w ≡ new_world) (λ w. (r, w))
untouched r = record { at = λ w same. same }

delete_project_handler_fails_closed_example :
    ((delete_project_handler unlistable second_meta web status_of idle).1.cloud ≡ new_world)
    ⊎ ((true ≡ true)
        × ((unlistable.get_core_api new_world).0 ≡ ok tt)
        × ((crs : List ProjectCr) × ((unlistable.list_project_crs new_world).0 ≡ ok crs)
            × ((b : ProjectCr)
                → Elem b crs
                → IsClaim "web" "sso" b
                → SameCr (self_cr second_meta "web" "sso") b)))
delete_project_handler_fails_closed_example =
    delete_project_handler_fails_closed unlistable second_meta web idle (λ w. w ≡ new_world)
      (untouched (ok tt)) (untouched (err (exception "Forbidden"))) refl status_of

delete_project_handler_shared_example :
    let end = delete_project_handler shared second_meta web status_of idle in
    (end.0 ≡ ok tt) × (end.1.cloud ≡ new_world)
delete_project_handler_shared_example =
    delete_project_handler_shared shared second_meta web idle (owner ∷ []) owner refl refl
      (inl refl) owned_by_first another status_of refl
