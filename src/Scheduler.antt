-- ===== src/Scheduler.antt =====
-- flowctl/multiagent.py: the scheduler that runs the slices of a feature's plan.
pub mod Plan
pub mod State
pub mod LocalLocks
pub mod Loop
pub mod Counts
pub mod Sound
pub mod Changes
pub mod Moves
pub mod Preserve
pub mod Attempts
pub mod Kept
pub mod Rounds
pub mod Fresh
pub mod Pairs
pub mod LockLaws
pub mod Locking
pub mod LocalLaws
pub mod Whole
pub mod Exclusive
pub mod Ended
pub mod Cycles
pub mod Stuck
pub mod Idle
pub mod LocalIdle
pub mod SamePlan
pub mod Ready
pub mod Starts
pub mod Minimal
pub mod Slack
pub mod Shrinks
pub mod Productive
pub mod Blocks
pub mod Progress
pub mod Ends
pub mod Apart
pub mod Tests
