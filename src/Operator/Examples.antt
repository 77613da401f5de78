-- ===== src/Operator/Examples.antt =====
-- The parts of the operator on concrete inputs, with clients whose whole state is a record.
mod Texts
mod Claiming
mod Cloud
mod Storage
mod Resources
mod Clusters
mod Retries
mod Projects
mod Domains
