-- ===== src/TaskQueue.antt =====
-- gateway/app/store.py: the queue of tasks, with their comments and events.
pub mod Data
pub mod Methods
pub mod Claim
pub mod Calls
pub mod Enqueue
pub mod Journal
pub mod Recent
pub mod Tests
