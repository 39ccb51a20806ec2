-- ===== src/Evaluator/Frame/Roots.antt =====
-- rex-engine/src/stack.rs: the roots of a frame, the values, environments and native task that it
-- holds, in the order of the calls that the arms of `Frame::map_values` make for them.
pub mod Visit
pub mod Laws
use rex.Prelude.{List, [], ◌∷◌, ◌++◌, Option, none, some, map}
use rex.Evaluator.Frame.{
  FrValue, FrSequence, FrRecordUpdate, FrApp, FrLet, FrLetRec, FrIte, FrMatch, Frame, literal, hole,
  sequence, record_update, var, app, project, lam, let_frame, let_rec, ite_frame, match,
  native_call, native_host,
}

pub data Root (P E N : Type 0) : Type 0 where
  value : P → Root P E N
  environment : E → Root P E N
  task : N → Root P E N

unfoldable pub option_roots : {R B : Type 0} → (B → R) → Option B → List R
option_roots f none = []
option_roots f (some b) = f b ∷ []

unfoldable pub option_list_roots : {R B : Type 0} → (B → R) → List (Option B) → List R
unfolding option_roots
option_list_roots f [] = []
option_list_roots f (o ∷ os) = option_roots f o ++ option_list_roots f os

unfoldable pub roots : {P E X A N : Type 0} → Frame P E X A N → List (Root P E N)
unfolding option_roots option_list_roots
roots (literal frame) = []
roots (hole frame) = environment frame.env ∷ option_roots value frame.value
roots (var frame) = environment frame.env ∷ option_roots value frame.value
roots (project frame) = environment frame.env ∷ option_roots value frame.value
roots (lam frame) = environment frame.env ∷ option_roots value frame.value
roots (sequence frame) = environment frame.env ∷ option_list_roots value frame.values
roots (record_update frame) =
    environment frame.env ∷ option_roots value frame.base_value
    ++ option_list_roots value frame.update_values
roots (app frame) =
    environment frame.env ∷ option_list_roots value frame.arg_values
    ++ (option_roots value frame.func ++ option_roots value frame.arg)
roots (let_frame frame) = environment frame.env ∷ option_roots value frame.def_value
roots (let_rec frame) =
    environment frame.env ∷ option_roots environment frame.recursive_env
    ++ (map value frame.slots ++ option_roots value frame.binding_value)
roots (ite_frame frame) = environment frame.env ∷ option_roots value frame.cond_value
roots (match frame) =
    environment frame.env ∷ option_roots value frame.scrutinee_value
    ++ option_roots environment frame.matched_env
roots (native_call frame) = task frame.task ∷ []
roots (native_host frame) = []
