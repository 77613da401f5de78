-- ===== src/Operator/Examples/Domains.antt =====
-- The domain handlers over one record.
use openstack_keystone.Prelude.{some, none, []}
use openstack_keystone.Operator.Handling.Outcome.{Settled}
use openstack_keystone.Operator.DomainHandlers.{
  DomainSpec, DomainStatus, DomainServices, DomainRun, update_domain_handler,
}
use openstack_keystone.Operator.DomainHandlers.Outcome.{update_domain_handler-Settled}
use openstack_keystone.Operator.Examples.Cloud.{World, new_world, identity}
use openstack_keystone.Operator.Examples.Projects.{empty_registry}

abbrev domain_services : DomainServices World
domain_services = record { identity = identity; registry = empty_registry; now = λ w. "now" }

abbrev sso : DomainSpec
sso = record { name = some "sso"; description = some "SSO"; enabled = none }

abbrev no_domain : DomainStatus
no_domain = record { phase = none; domain_id = none; conditions = none }

abbrev quiet : DomainRun World
quiet = record {
  cloud = new_world;
  patch = record {
    phase = none;
    observed_generation = none;
    conditions = none;
    domain_id = none;
    last_sync_time = none;
  };
  entered = 0;
  left = 0;
  events = [];
}

update_domain_handler-Settled_example :
    let end = update_domain_handler domain_services "sso" none sso no_domain quiet in
    Settled end.0 end.1.patch.phase
update_domain_handler-Settled_example =
    update_domain_handler-Settled domain_services "sso" none sso no_domain quiet
