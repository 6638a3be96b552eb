-- ===== src/SpecRegistry.antt =====
-- gateway/app/store.py, the spec registry: `claim_spec`, `heartbeat_spec`, `release_spec`,
-- `reassign_spec`, `transition_spec`, `get_spec`, `list_specs` and their helpers.
-- Times are whole seconds. A method reads the clock at several points: `Clock` has one reading for
-- each, and nothing is assumed of their order. The token that `uuid4` gives is an argument.
pub mod Data
pub mod Helpers
pub mod Methods
mod Trail
mod Keeps
pub mod Calls
pub mod Audit
pub mod Frame
pub mod Lease
pub mod Answers
pub mod Transitions
pub mod Expiry
pub mod Listing
mod Tests
