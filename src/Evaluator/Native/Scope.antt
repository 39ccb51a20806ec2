-- ===== src/Evaluator/Native/Scope.antt =====
-- What the native tasks ask of a `RootScope` (rex-engine/src/memory/heap.rs), as an interface: reading
-- and allocating values. `H` is the state of the heap and `P` a rooted pointer.
use rex.Prelude.{ℕ, Bool, List, Option, none, some, String}
use rex.Types.Builtin.{BuiltinTypeId}
use rex.Types.Syntax.{Ty, Symbol}
use rex.Evaluator.Frame.Effect.{Effect, err, pure}

-- The errors of rex-engine/src/error.rs that these tasks raise themselves; `other` is one of the
-- heap's. `spent` is not of the source: the fuel of the unifier was not enough.
pub data EngineError : Type 0 where
  internal : String → EngineError
  native_type : String → String → EngineError
  type_mismatch : Ty → Ty → EngineError
  not_callable : Ty → EngineError
  not_a_float : Ty → EngineError
  empty_sequence : EngineError
  other : String → EngineError
  spent : EngineError

abbrev pub Action : Type 0 → Type 0 → Type 0
Action H A = Effect H EngineError A

module _ {H A : Type 0} where
  unfoldable pub fail : EngineError → Action H A
  fail e s = err e s

  -- `Option::ok_or_else`
  unfoldable pub ok_or : String → Option A → Action H A
  unfolding pure fail
  ok_or text none = fail (internal text)
  ok_or text (some a) = pure a

pub record RootScope (H P : Type 0) : Type 0 where
  -- The pointers of a data cell, rooted.
  pub cell_as_data : P → Action H (List P)
  pub root_as_bool : P → Action H Bool
  pub root_as_list : P → Action H (List P)
  pub root_as_tuple : P → Action H (List P)
  pub root_as_string : P → Action H String
  pub root_as_adt : P → Action H (Symbol × List P)
  pub type_name : P → Action H String
  pub alloc_root_bool : Bool → Action H P
  pub alloc_root_u8 : ℕ → Action H P
  pub alloc_root_u64 : ℕ → Action H P
  -- A length, as `f32` or `f64`.
  pub alloc_root_float : BuiltinTypeId → ℕ → Action H P
  pub alloc_root_list : List P → Action H P
  pub alloc_root_tuple : List P → Action H P
  pub alloc_root_dict : List (String × P) → Action H P
  pub alloc_root_adt : Symbol → List P → Action H P
  pub alloc_root_overloaded : Symbol → Ty → Action H P
