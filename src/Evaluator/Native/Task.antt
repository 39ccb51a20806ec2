-- ===== src/Evaluator/Native/Task.antt =====
-- rex-engine/src/evaluator/native_functions.rs: `NativeTask` and the records of its kinds. A map by
-- names is a list of entries in the order of the names. `NativeUnaryShape` is of stack.rs.
pub mod Keeps
use rex.Prelude.{ℕ, Bool, String, List, Option}
use rex.Types.Syntax.{Ty}
use rex.Evaluator.FrameStore.{FrameId}
use rex.Evaluator.Native.Items.{ListItems}

pub data NativeUnaryShape : Type 0 where
  option result : NativeUnaryShape

pub data NativeSequenceShape : Type 0 where
  list : NativeSequenceShape

pub data NativeSequencePredicateMode : Type 0 where
  count partition : NativeSequencePredicateMode

pub data NativeListSearchMode : Type 0 where
  any every find find_index : NativeListSearchMode

pub data NativeFoldOrder : Type 0 where
  left right : NativeFoldOrder

pub data NativeFoldState : Type 0 where
  enter apply_first apply_second : NativeFoldState

pub data NativeArrayEqState : Type 0 where
  enter apply_first apply_second : NativeArrayEqState

pub data NativeMeanState : Type 0 where
  enter apply_plus_first apply_plus_second apply_div_first apply_div_second : NativeMeanState

pub record NativeApplyUnary (P : Type 0) : Type 0 where
  pub func : P
  pub func_type : Ty
  pub arg : P
  pub arg_type : Ty

pub record NativeSequenceMap (P : Type 0) : Type 0 where
  pub func : P
  pub func_type : Ty
  pub elem_type : Ty
  pub values : ListItems P
  pub shape : NativeSequenceShape
  pub children : List FrameId
  pub output : List (Option P)
  pub remaining : ℕ

pub record NativeSequenceFilter (P : Type 0) : Type 0 where
  pub func : P
  pub func_type : Ty
  pub elem_type : Ty
  pub values : ListItems P
  pub shape : NativeSequenceShape
  pub children : List FrameId
  pub keep : List (Option Bool)
  pub remaining : ℕ

pub record NativeSequencePredicate (P : Type 0) : Type 0 where
  pub func : P
  pub func_type : Ty
  pub elem_type : Ty
  pub values : ListItems P
  pub mode : NativeSequencePredicateMode
  pub children : List FrameId
  pub matches : List (Option Bool)
  pub remaining : ℕ

pub record NativeSequenceFilterMap (P : Type 0) : Type 0 where
  pub func : P
  pub func_type : Ty
  pub elem_type : Ty
  pub values : ListItems P
  pub shape : NativeSequenceShape
  pub children : List FrameId
  pub output : List (Option (Option P))
  pub remaining : ℕ

pub record NativeSequenceFlatMap (P : Type 0) : Type 0 where
  pub func : P
  pub func_type : Ty
  pub elem_type : Ty
  pub values : ListItems P
  pub shape : NativeSequenceShape
  pub children : List FrameId
  pub output : List (Option (List P))
  pub remaining : ℕ

pub record NativeListSearch (P : Type 0) : Type 0 where
  pub func : P
  pub func_type : Ty
  pub elem_type : Ty
  pub values : ListItems P
  pub mode : NativeListSearchMode
  pub next_index : ℕ

pub record NativeUnaryMap (P : Type 0) : Type 0 where
  pub func : P
  pub func_type : Ty
  pub elem_type : Ty
  pub value : P
  pub shape : NativeUnaryShape

pub record NativeUnaryFilter (P : Type 0) : Type 0 where
  pub func : P
  pub func_type : Ty
  pub elem_type : Ty
  pub value : P
  pub original : P

pub record NativeUnaryFilterMap (P : Type 0) : Type 0 where
  pub func : P
  pub func_type : Ty
  pub elem_type : Ty
  pub value : P

pub record NativeUnaryFlatMap (P : Type 0) : Type 0 where
  pub func : P
  pub func_type : Ty
  pub elem_type : Ty
  pub value : P
  pub shape : NativeUnaryShape

pub record NativeFold (P : Type 0) : Type 0 where
  pub func : P
  pub func_type : Ty
  pub acc_type : Ty
  pub elem_type : Ty
  pub values : ListItems P
  pub acc : P
  pub order : NativeFoldOrder
  pub state : NativeFoldState
  pub next_index : ℕ
  pub step : Option P

pub record NativeDictMap (P : Type 0) : Type 0 where
  pub func : P
  pub func_type : Ty
  pub elem_type : Ty
  pub entries : List (String × P)
  pub children : List FrameId
  pub output : List (String × P)
  pub remaining : ℕ

pub record NativeDictEntryMap (P : Type 0) : Type 0 where
  pub func : P
  pub func_type : Ty
  pub entry_type : Ty
  pub args : List P
  pub children : List FrameId
  pub output : List (Option P)
  pub remaining : ℕ

pub record NativeDictFilter (P : Type 0) : Type 0 where
  pub func : P
  pub func_type : Ty
  pub arg_type : Ty
  pub entries : List (String × P)
  pub args : List P
  pub children : List FrameId
  pub keep : List (Option Bool)
  pub remaining : ℕ

pub record NativeDictFilterMap (P : Type 0) : Type 0 where
  pub func : P
  pub func_type : Ty
  pub elem_type : Ty
  pub entries : List (String × P)
  pub children : List FrameId
  pub output : List (Option (Option P))
  pub remaining : ℕ

pub record NativeDictUpdate (P : Type 0) : Type 0 where
  pub func : P
  pub func_type : Ty
  pub option_type : Ty
  pub key : String
  pub entries : List (String × P)
  pub arg : P
  pub children : List FrameId

pub record NativeArrayEq (P : Type 0) : Type 0 where
  pub elem_type : Ty
  pub xs : ListItems P
  pub ys : ListItems P
  pub state : NativeArrayEqState
  pub next_index : ℕ
  pub step : Option P
  pub negate : Bool

pub record NativeSum (P : Type 0) : Type 0 where
  pub elem_type : Ty
  pub values : ListItems P
  pub acc : Option P
  pub plus : Option P
  pub state : NativeFoldState
  pub next_index : ℕ
  pub step : Option P

pub record NativeMean (P : Type 0) : Type 0 where
  pub elem_type : Ty
  pub values : ListItems P
  pub len : ℕ
  pub acc : Option P
  pub state : NativeMeanState
  pub next_index : ℕ
  pub step : Option P
  pub len_value : Option P

pub data NativeTask (P : Type 0) : Type 0 where
  apply_unary : NativeApplyUnary P → NativeTask P
  sequence_map : NativeSequenceMap P → NativeTask P
  sequence_filter : NativeSequenceFilter P → NativeTask P
  sequence_predicate : NativeSequencePredicate P → NativeTask P
  sequence_filter_map : NativeSequenceFilterMap P → NativeTask P
  sequence_flat_map : NativeSequenceFlatMap P → NativeTask P
  list_search : NativeListSearch P → NativeTask P
  unary_map : NativeUnaryMap P → NativeTask P
  unary_filter : NativeUnaryFilter P → NativeTask P
  unary_filter_map : NativeUnaryFilterMap P → NativeTask P
  unary_flat_map : NativeUnaryFlatMap P → NativeTask P
  fold : NativeFold P → NativeTask P
  dict_map : NativeDictMap P → NativeTask P
  dict_entry_map : NativeDictEntryMap P → NativeTask P
  dict_filter : NativeDictFilter P → NativeTask P
  dict_filter_map : NativeDictFilterMap P → NativeTask P
  dict_update : NativeDictUpdate P → NativeTask P
  array_eq : NativeArrayEq P → NativeTask P
  sum : NativeSum P → NativeTask P
  mean : NativeMean P → NativeTask P
