-- ===== src/AgentRoles.antt =====
-- flowctl/agent_roles.py: the roles of agents, and who may orchestrate and review.
pub mod Context
pub mod Nested
pub mod Executors
pub mod Reviewers
pub mod Independent
mod Tests
