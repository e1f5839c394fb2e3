-- ===== src/Queue.antt =====
-- src/db/queueRepository.ts
pub mod Rules
pub mod WellFormed
pub mod Marks
pub mod Keeps
pub mod Reopen
pub mod Rows
pub mod Requests
pub mod Reads
pub mod Enqueue
pub mod Traces
