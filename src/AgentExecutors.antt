-- ===== src/AgentExecutors.antt =====
-- flowctl/agent_executors.py: the registry of executors in workspace.config.json.
pub mod Data
pub mod Parse
pub mod Valid
pub mod Keys
mod Tests
