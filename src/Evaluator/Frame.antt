-- ===== src/Evaluator/Frame.antt =====
-- rex-engine/src/stack.rs: the evaluator's control frames, one record for each kind. `P` is a
-- value, `E` an environment, `X` a typed expression, `A` a function argument or a match arm, `N` a
-- native task; the frames only hold them.
pub mod Effect
pub mod MapValues
pub mod Shape
pub mod Roots
pub mod Keeps
pub mod Live
pub mod Tests
use rex.Prelude.{ℕ, List, Option, String}
use rex.Evaluator.FrameStore.{FrameId}

abbrev pub Symbol : Type 0
Symbol = String

pub data FrValueState : Type 0 where
  enter : FrValueState

pub data FrSequenceState : Type 0 where
  enter eval_item : FrSequenceState

pub data FrRecordUpdateState : Type 0 where
  enter eval_base eval_update : FrRecordUpdateState

pub data FrAppState : Type 0 where
  enter eval_children apply_arg : FrAppState

pub data FrLetState : Type 0 where
  enter eval_def eval_body : FrLetState

pub data FrLetRecState : Type 0 where
  enter eval_binding eval_body : FrLetRecState

pub data FrBranchState : Type 0 where
  enter eval_condition eval_selected : FrBranchState

pub data FrMatchState : Type 0 where
  enter eval_scrutinee eval_arm : FrMatchState

pub data FrNativeCallState : Type 0 where
  enter waiting : FrNativeCallState

-- `FrHole`, `FrVar`, `FrProject` and `FrLam`, which one macro declares.
pub record FrValue (P E X : Type 0) : Type 0 where
  pub parent : Option FrameId
  pub expr : X
  pub env : E
  pub state : FrValueState
  pub value : Option P

pub record FrLiteral (X : Type 0) : Type 0 where
  pub parent : Option FrameId
  pub expr : X

pub record FrSequence (P E X : Type 0) : Type 0 where
  pub parent : Option FrameId
  pub expr : X
  pub env : E
  pub state : FrSequenceState
  pub children : List FrameId
  pub values : List (Option P)
  pub remaining : ℕ

pub record FrRecordUpdate (P E X : Type 0) : Type 0 where
  pub parent : Option FrameId
  pub expr : X
  pub env : E
  pub state : FrRecordUpdateState
  pub base_value : Option P
  pub update_keys : List Symbol
  pub update_children : List FrameId
  pub update_values : List (Option P)
  pub remaining_updates : ℕ

pub record FrApp (P E X A : Type 0) : Type 0 where
  pub parent : Option FrameId
  pub expr : X
  pub env : E
  pub state : FrAppState
  pub head : Option X
  pub spine : List A
  pub head_child : Option FrameId
  pub arg_children : List FrameId
  pub arg_values : List (Option P)
  pub remaining : ℕ
  pub next_arg_index : ℕ
  pub func : Option P
  pub arg : Option P

pub record FrLet (P E X : Type 0) : Type 0 where
  pub parent : Option FrameId
  pub expr : X
  pub env : E
  pub state : FrLetState
  pub def_value : Option P

pub record FrLetRec (P E X : Type 0) : Type 0 where
  pub parent : Option FrameId
  pub expr : X
  pub env : E
  pub state : FrLetRecState
  pub recursive_env : Option E
  pub slots : List P
  pub next_binding_index : ℕ
  pub binding_value : Option P

pub record FrIte (P E X : Type 0) : Type 0 where
  pub parent : Option FrameId
  pub expr : X
  pub env : E
  pub state : FrBranchState
  pub cond_value : Option P
  pub selected : Option X

pub record FrMatch (P E X A : Type 0) : Type 0 where
  pub parent : Option FrameId
  pub expr : X
  pub env : E
  pub state : FrMatchState
  pub scrutinee_value : Option P
  pub arms : List A
  pub next_arm_index : ℕ
  pub matched_env : Option E

pub record FrNativeCall (N : Type 0) : Type 0 where
  pub parent : Option FrameId
  pub state : FrNativeCallState
  pub task : N

pub record FrNativeHost : Type 0 where
  pub parent : Option FrameId

pub data Frame (P E X A N : Type 0) : Type 0 where
  literal : FrLiteral X → Frame P E X A N
  hole : FrValue P E X → Frame P E X A N
  sequence : FrSequence P E X → Frame P E X A N
  record_update : FrRecordUpdate P E X → Frame P E X A N
  var : FrValue P E X → Frame P E X A N
  app : FrApp P E X A → Frame P E X A N
  project : FrValue P E X → Frame P E X A N
  lam : FrValue P E X → Frame P E X A N
  let_frame : FrLet P E X → Frame P E X A N
  let_rec : FrLetRec P E X → Frame P E X A N
  ite_frame : FrIte P E X → Frame P E X A N
  match : FrMatch P E X A → Frame P E X A N
  native_call : FrNativeCall N → Frame P E X A N
  native_host : FrNativeHost → Frame P E X A N

unfoldable pub parent : {P E X A N : Type 0} → Frame P E X A N → Option FrameId
parent (literal frame) = frame.parent
parent (hole frame) = frame.parent
parent (sequence frame) = frame.parent
parent (record_update frame) = frame.parent
parent (var frame) = frame.parent
parent (app frame) = frame.parent
parent (project frame) = frame.parent
parent (lam frame) = frame.parent
parent (let_frame frame) = frame.parent
parent (let_rec frame) = frame.parent
parent (ite_frame frame) = frame.parent
parent (match frame) = frame.parent
parent (native_call frame) = frame.parent
parent (native_host frame) = frame.parent
