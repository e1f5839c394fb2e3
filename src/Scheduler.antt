-- ===== src/Scheduler.antt =====
-- The scheduler: its ticks, the retriggers that they post, and what is proved of them
-- (src/scheduler.ts, src/ReviewTrigger.ts, src/Pruner.ts).
pub mod Recording
pub mod Trigger
pub mod Selection
pub mod Tick
pub mod Posts
pub mod HeldBack
pub mod TriggerPosts
pub mod AtMostOne
pub mod Attempts
pub mod Spacing
mod Examples
