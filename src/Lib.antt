-- ===== src/Lib.antt =====
-- Rex: a statically typed functional workflow language, in Rust. This library models the core of
-- its type system and of its evaluator.
--
-- The type checker (rex-typesystem) solves equations between types: a type is substituted into, its
-- free variables are gathered, and two types are unified. The evaluator (rex-engine) runs an
-- expression as control frames, kept in a store by identifiers, that a scheduler takes up one at a
-- time; asynchronous calls of the host are queued beside it.
--
-- What models what:
-- - Types.Builtin, Types.Syntax and Types.Constants: the types of rex-typesystem/src/types.rs. The
--   source's `Type` and `TypeKind` are `Ty`; a symbol is its text; the vectors in tuples and
--   records are the data types `Tys` and `Fields`.
-- - Types.Apply: `apply_with_change` and `apply` of the same file; Types.Ftv: `ftv`. Types.Inst is
--   the reference semantics of a substitution, which is not in the source.
-- - Types.Subst: the persistent map `Subst` of rex-typesystem/src/unification.rs, a list of pairs
--   in which a key stands once; Types.Compose: `compose_subst`.
-- - Types.Unify: the pure unifier `unify` with `bind` and `record_elem_type`. Compat says when two
--   types are compatible (a record stands for a dictionary of one element type), Solved what a
--   solution over a set of variables is, Loops, Elements, Dict, Arms and Step go through its arms,
--   Total puts them together, Absorbs and Complete are about generality, HigherRecords about a case
--   outside the two fragments of Types.Fragment. Outcome is the result of a fallible computation,
--   and Outcome.Settles says that a run on fuel has one outcome from some fuel on.
-- - Evaluator.Scheduler: `EvalScheduler` of rex-engine/src/evaluator/scheduler.rs, its two queues
--   as lists. Evaluator.FrameStore: `FrameStore` of rex-engine/src/stack.rs, a list of entries.
-- - Evaluator.Frame: the kinds of frame of the same file and `Frame::map_values`, which hands what
--   a frame holds to a mapper; Live is the mapper of rex-engine/src/evaluator/eval.rs that gathers
--   the roots of a garbage collection. Effect is the mapper's state with its errors, Roots lists
--   what a frame holds, Shape is the rest of it, and Keeps is about all fields. A native task is a
--   parameter, with the mapping of its values; Evaluator.Native.Task.Keeps puts the tasks in its
--   place.
-- - Evaluator.Environment: `ScopedEnvironment` and `RootedEnvironment` of rex-engine/src/env.rs,
--   one type, and the copy of one into the other.
-- - Evaluator.SortedMap: a `BTreeMap` by names, as a list of entries that `put` keeps in the order
--   of the names; for environments and the tasks on dictionaries.
-- - Evaluator.Native: the tasks of rex-engine/src/evaluator/native_functions.rs, by which a native
--   function such as `map` or `fold` asks for applications to be evaluated by child frames. Task
--   has their data, MapValues their mapping; Sequence, Predicate, Dict, Unary, Fold, Search and Sum
--   have `enter` and `receive` of each, Coroutine the dispatch over them. What the receivers of
--   many children repeat is written once in Gather, with the texts of each task's errors in Texts.
--   The heap is an interface, Scope.RootScope, whose operations may fail and may change its state.
--   Items is `ListItems` of rex-engine/src/memory/lists.rs, Apply the expression that a task asks
--   for, with two kinds of `TypedExpr` only. The modules whose names end in Order hand a task the
--   answers of its children one by one in any order (Gather.Order.run); Apply.Drive runs a task
--   that has one child at a time, with the evaluation of an expression and the application of a
--   value as parameters (Evaluates). Control turns the step of a task into frames: its state is
--   that of the heap with the frame store, and its error one of either.
--
-- Fuel: `unify` recurs on types that substitutions have made, so it takes fuel, a unit a nested
-- call; the amount is not a function of the input written out, it is shown to exist. The loops of
-- `ftv` and of `enforce_ready_limit` take a round of fuel for each node and each item, which is
-- enough. A `usize` is a natural number; its end is tested in the frame counter and in the index
-- into a slice. The tasks hand the fuel of `unify` on, and have an error of their own, `spent`,
-- where it ends; the theorem on folds assumes that the two types of the task unify on the fuel it
-- is given.
--
-- Not modelled: the texts that errors are printed as (an error keeps the types); the stateful
-- `Unifier`, inference, the parser, the heap, the host scheduler, the workflow runtime, the
-- language server and the tool crates. Of the evaluation's cycle, what it does with the answer of a
-- step.
pub mod Prelude
pub mod Types
pub mod Evaluator
pub mod Outcome
