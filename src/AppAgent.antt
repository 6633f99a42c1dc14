-- ===== src/AppAgent.antt =====
-- controllers/agents/app: the agent of an application namespace.
pub mod Removal
pub mod RemovalLaws
pub mod Containers
pub mod ContainerLaws
pub mod Workloads
pub mod Informers
pub mod Binder
pub mod Reconciler
pub mod Events
pub mod Steps
pub mod Kept
pub mod Finalizers
pub mod Connections
pub mod ClaimSync
pub mod Agent
pub mod ClaimLaws
