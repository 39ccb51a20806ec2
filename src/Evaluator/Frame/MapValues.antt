-- ===== src/Evaluator/Frame/MapValues.antt =====
-- rex-engine/src/stack.rs, `Frame::map_values`: every value, environment and native task of a frame
-- is handed to a mapper. A task maps its own values: `map_native` is `NativeTask::map_values` of
-- rex-engine/src/evaluator/native_functions.rs, whose model is not here.
use rex.Prelude.{List, [], ◌∷◌, Option, none, some}
use rex.Evaluator.Frame.{
  FrValue, FrSequence, FrRecordUpdate, FrApp, FrLet, FrLetRec, FrIte, FrMatch, Frame, literal, hole,
  sequence, record_update, var, app, project, lam, let_frame, let_rec, ite_frame, match,
  native_call, native_host,
}
use rex.Evaluator.Frame.Effect.{Effect, pure, ◌>>=◌}

-- `FrameValueMapper`.
pub record Mapper (S Err P E Q D : Type 0) : Type 0 where
  pub map_value : P → Effect S Err Q
  pub map_environment : E → Effect S Err D

module _ {S Err : Type 0} {A B : Type 0} (f : A → Effect S Err B) where
  unfoldable pub map_option : Option A → Effect S Err (Option B)
  map_option none = pure none
  map_option (some a) = do b ← f a; pure (some b)

  unfoldable pub map_vec : List A → Effect S Err (List B)
  map_vec [] = pure []
  map_vec (a ∷ rest) = do b ← f a; bs ← map_vec rest; pure (b ∷ bs)

unfoldable pub map_option_vec :
    {S Err A B : Type 0} → (A → Effect S Err B) → List (Option A) → Effect S Err (List (Option B))
map_option_vec f values = map_vec (map_option f) values

module _ {S Err P E Q D X : Type 0} (m : Mapper S Err P E Q D) where
  unfoldable pub map_frame_value : FrValue P E X → Effect S Err (FrValue Q D X)
  map_frame_value frame = do
    env ← m.map_environment frame.env
    value ← map_option m.map_value frame.value
    pure (record {
      parent = frame.parent;
      expr = frame.expr;
      env = env;
      state = frame.state;
      value = value;
    })

  unfoldable pub map_sequence : FrSequence P E X → Effect S Err (FrSequence Q D X)
  map_sequence frame = do
    env ← m.map_environment frame.env
    values ← map_option_vec m.map_value frame.values
    pure (record {
      parent = frame.parent;
      expr = frame.expr;
      env = env;
      state = frame.state;
      children = frame.children;
      values = values;
      remaining = frame.remaining;
    })

  unfoldable pub map_record_update : FrRecordUpdate P E X → Effect S Err (FrRecordUpdate Q D X)
  map_record_update frame = do
    env ← m.map_environment frame.env
    base_value ← map_option m.map_value frame.base_value
    update_values ← map_option_vec m.map_value frame.update_values
    pure (record {
      parent = frame.parent;
      expr = frame.expr;
      env = env;
      state = frame.state;
      base_value = base_value;
      update_keys = frame.update_keys;
      update_children = frame.update_children;
      update_values = update_values;
      remaining_updates = frame.remaining_updates;
    })

  unfoldable pub map_app : {A : Type 0} → FrApp P E X A → Effect S Err (FrApp Q D X A)
  map_app frame = do
    env ← m.map_environment frame.env
    arg_values ← map_option_vec m.map_value frame.arg_values
    func ← map_option m.map_value frame.func
    arg ← map_option m.map_value frame.arg
    pure (record {
      parent = frame.parent;
      expr = frame.expr;
      env = env;
      state = frame.state;
      head = frame.head;
      spine = frame.spine;
      head_child = frame.head_child;
      arg_children = frame.arg_children;
      arg_values = arg_values;
      remaining = frame.remaining;
      next_arg_index = frame.next_arg_index;
      func = func;
      arg = arg;
    })

  unfoldable pub map_let : FrLet P E X → Effect S Err (FrLet Q D X)
  map_let frame = do
    env ← m.map_environment frame.env
    def_value ← map_option m.map_value frame.def_value
    pure (record {
      parent = frame.parent;
      expr = frame.expr;
      env = env;
      state = frame.state;
      def_value = def_value;
    })

  unfoldable pub map_let_rec : FrLetRec P E X → Effect S Err (FrLetRec Q D X)
  map_let_rec frame = do
    env ← m.map_environment frame.env
    recursive_env ← map_option m.map_environment frame.recursive_env
    slots ← map_vec m.map_value frame.slots
    binding_value ← map_option m.map_value frame.binding_value
    pure (record {
      parent = frame.parent;
      expr = frame.expr;
      env = env;
      state = frame.state;
      recursive_env = recursive_env;
      slots = slots;
      next_binding_index = frame.next_binding_index;
      binding_value = binding_value;
    })

  unfoldable pub map_ite : FrIte P E X → Effect S Err (FrIte Q D X)
  map_ite frame = do
    env ← m.map_environment frame.env
    cond_value ← map_option m.map_value frame.cond_value
    pure (record {
      parent = frame.parent;
      expr = frame.expr;
      env = env;
      state = frame.state;
      cond_value = cond_value;
      selected = frame.selected;
    })

  unfoldable pub map_match : {A : Type 0} → FrMatch P E X A → Effect S Err (FrMatch Q D X A)
  map_match frame = do
    env ← m.map_environment frame.env
    scrutinee_value ← map_option m.map_value frame.scrutinee_value
    matched_env ← map_option m.map_environment frame.matched_env
    pure (record {
      parent = frame.parent;
      expr = frame.expr;
      env = env;
      state = frame.state;
      scrutinee_value = scrutinee_value;
      arms = frame.arms;
      next_arm_index = frame.next_arm_index;
      matched_env = matched_env;
    })

module _ {S Err P E Q D X A N K : Type 0} (m : Mapper S Err P E Q D)
    (map_native : (P → Effect S Err Q) → N → Effect S Err K) where
  unfoldable pub map_values : Frame P E X A N → Effect S Err (Frame Q D X A K)
  unfolding map_option_vec map_frame_value map_sequence map_record_update map_app map_let
      map_let_rec map_ite map_match
  map_values (literal frame) = pure (literal frame)
  map_values (hole frame) = do frame' ← map_frame_value m frame; pure (hole frame')
  map_values (var frame) = do frame' ← map_frame_value m frame; pure (var frame')
  map_values (project frame) = do frame' ← map_frame_value m frame; pure (project frame')
  map_values (lam frame) = do frame' ← map_frame_value m frame; pure (lam frame')
  map_values (sequence frame) = do frame' ← map_sequence m frame; pure (sequence frame')
  map_values (record_update frame) = do
    frame' ← map_record_update m frame
    pure (record_update frame')
  map_values (app frame) = do frame' ← map_app m frame; pure (app frame')
  map_values (let_frame frame) = do frame' ← map_let m frame; pure (let_frame frame')
  map_values (let_rec frame) = do frame' ← map_let_rec m frame; pure (let_rec frame')
  map_values (ite_frame frame) = do frame' ← map_ite m frame; pure (ite_frame frame')
  map_values (match frame) = do frame' ← map_match m frame; pure (match frame')
  map_values (native_call frame) = do
    task ← map_native m.map_value frame.task
    pure (native_call (record { parent = frame.parent; state = frame.state; task = task }))
  map_values (native_host frame) = pure (native_host frame)
