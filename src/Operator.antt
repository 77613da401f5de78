-- ===== src/Operator.antt =====
-- The OpenStack operator (openstack-operator/src): one module for each part.
pub mod Naming
pub mod Claims
pub mod Registry
pub mod Client
pub mod RoleBinding
pub mod Federation
pub mod Conditions
pub mod FederationConfig
pub mod Project
pub mod Network
pub mod Garbage
pub mod SecurityGroup
pub mod Domain
pub mod ProviderNetwork
pub mod ClusterGarbage
pub mod Retry
pub mod Quota
pub mod TransitKey
pub mod Handling
pub mod Handlers
pub mod DomainHandlers
mod Examples
