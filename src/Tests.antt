-- ===== src/Tests.antt =====
-- Runs on a small world, and the theorems at concrete inputs.
mod World
mod Texts
mod Catalogs
mod Claiming
mod Binding
mod Classes
mod Endpoints
mod Environments
mod Workloads
mod Containers
mod Monitoring
mod Descriptors
mod Agents
