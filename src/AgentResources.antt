-- ===== src/AgentResources.antt =====
-- flowctl/agent_resources.py: the registry of logical resources, and the choice among them.
pub mod Data
pub mod Availability
pub mod Selection
pub mod Sound
pub mod Registry
pub mod Registered
pub mod Accepted
pub mod Models
pub mod Least
pub mod Evident
pub mod Go
mod Tests
