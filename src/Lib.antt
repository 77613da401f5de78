-- ===== src/Lib.antt =====
-- Two programs of this repository. Operator is the OpenStack operator (openstack-operator): a kopf
-- operator that turns custom resources of Kubernetes into projects, domains, groups, role bindings,
-- federation mappings, networks and security groups of an OpenStack cloud, and collects what no
-- custom resource expects. Portal is the billing of the customer portal (customer-portal).
--
-- A method that changes the cloud is a function from the state to a result and a new state (Exec):
-- a raised exception is a result, and what was written before it stays written. The state `W` is
-- any type: the methods of `OpenStackClient` (openstack-operator/src/openstack_client.py) and the
-- Kubernetes API are records of such functions, and a theorem that depends on what they do takes
-- their documented behaviour as a record of laws. Logging and metrics are left out, but for the
-- gauge of runs in progress. `str.lower`, `str.strip` and `int` work by the Unicode tables and are
-- parameters.
--
-- The parts, with their sources under openstack-operator/src, and how they interact:
--   Operator.Naming: sanitize_name, make_group_name (utils.py), which all parts use for groups
--   Operator.Claims: find_project_owner_cr and what it calls (utils.py): which of several CRs may
--     create a project
--   Operator.Conditions: set_condition (utils.py), the conditions of a CR's status
--   Operator.Registry: ResourceRegistry (resources/registry.py), kept in a ConfigMap
--   Operator.RoleBinding: resources/role_binding.py
--   Operator.Federation: generate_mapping_rule, FederationManager, sync_federation_mapping
--     (resources/federation.py)
--   Operator.FederationConfig: get_federation_config (handlers.py) and the functions over CRs of
--     resources/garbage_collection.py
--   Operator.Project, Operator.Domain, Operator.Network, Operator.SecurityGroup,
--     Operator.ProviderNetwork: the managers of the same names under resources
--   Operator.Garbage: collect_garbage (resources/garbage_collection.py), which uses the registry,
--     the federation mapping and the tags of projects
--   Operator.ClusterGarbage: handlers/gc_cluster.py
--   Operator.Quota: resources/quota.py; Operator.TransitKey: resources/kms.py
--   Operator.Handling: what the kopf handlers share: the state of a run, the gauge of runs in
--     progress, and the `except` and `finally` clauses
--   Operator.Handlers: create_project, update_project, delete_project_handler and reconcile_project
--     (handlers.py), which call the claims, the managers and the registry above, and fill the patch
--     of the CR's status
--   Operator.DomainHandlers: handlers/domain.py
--   Operator.Retry: retry_on_error (openstack_client.py), which wraps the client's methods
-- The parts of the portal, all from customer-portal/app/billing_runner.py:
--   Portal.Billing.Prices: _find_price, _price_after_override_and_rebate
--   Portal.Billing.Fees: _cluster_management_fee; Portal.Billing.ClusterLines:
--     _emit_synthetic_cluster_lines, which asks both for what it writes
--   Portal.Billing.Usage: _canonicalize_volume_usage
--   Portal.Billing.Search: _project_had_gnocchi_resources
--   Portal.Billing.Query: _query_gnocchi_usage, which asks the search about projects without usage;
--     Portal.Billing.Measures: its inner loop, over the measures of a group
--   Portal.Billing.Products: GNOCCHI_PRODUCT_REGISTRY
--   Portal.Billing.Contracts: _get_project_contracts
--   Portal.Billing.Csv: generate_billing_csv, which composes all of these, up to its rows
-- Portal.Numbers has their decimals, of which only the operations are known, and integers.
--
-- Operator.Client has the identity calls of the client. Prelude, Exec and Dict are shared: lists and
-- texts, actions with their laws (what an action keeps, that it never raises, what a success says
-- of its parts), and Python's dict. Operator.Examples and Portal.Examples run the parts on
-- concrete inputs.
--
-- All loops are recursions on the list that the source walks, the retries on the number that is
-- left, and the search on the pages that are left, so no fuel is needed.
--
-- Not modelled: the handlers of flavors, images, networks and archive policies, the daemons'
-- loops, metrics, the client's rate limits, images, flavors, archive policies, the rest of the
-- billing (the database queries, the text of the CSV file, the discovery of metrics, the job
-- runner, the delivery), and the other programs of the repository (the rest of customer-portal,
-- customer-cluster-operator, the WSGI scripts of keystone).
pub mod Prelude
pub mod Exec
pub mod Dict
pub mod Operator
pub mod Portal
