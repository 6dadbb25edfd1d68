-- ===== src/Reprocessing.antt =====
-- src/data/usecases/mq/mq-send-reprocessing.ts, src/job/util/reprocessing.ts and
-- src/job/util/override-state.ts: what becomes of a message whose job fails.
pub mod Send
pub mod Decorator
pub mod Restore
pub mod Resume
pub mod Delays
pub mod Failure
pub mod Schedule
mod Tests
