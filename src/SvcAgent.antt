-- ===== src/SvcAgent.antt =====
-- controllers/agents/svc: the agent of a service namespace.
pub mod Descriptor
pub mod DescriptorLaws
pub mod Registration
pub mod Reconciler
pub mod Agent
pub mod AgentLaws
