-- ===== src/Evaluator.antt =====
-- rex-engine/src/evaluator/scheduler.rs and rex-engine/src/stack.rs: the evaluator's queue of ready
-- work and its control frames.
pub mod Scheduler
pub mod FrameStore
pub mod Frame
pub mod SortedMap
pub mod Environment
pub mod Native
pub mod Tests
