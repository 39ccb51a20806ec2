-- ===== src/Evaluator/Native.antt =====
-- rex-engine/src/evaluator/native_functions.rs: the tasks of native functions that call back into the
-- language, such as `map`, `filter` and `fold`. A task is entered once, asks for applications of a
-- function to be evaluated by child frames, and receives their values one at a time.
pub mod Scope
pub mod Items
pub mod Apply
pub mod Task
pub mod MapValues
pub mod Gather
pub mod Texts
pub mod Sequence
pub mod Predicate
pub mod Dict
pub mod Unary
pub mod Fold
pub mod Search
pub mod Sum
pub mod Coroutine
pub mod Control
pub mod Tests
