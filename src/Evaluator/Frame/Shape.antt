-- ===== src/Evaluator/Frame/Shape.antt =====
-- rex-engine/src/stack.rs, `Frame::map_values`: the shape of a frame, all of it but its values,
-- environments and native task.
pub mod Laws
use rex.Prelude.{List, Option, none, some, map}
use rex.Evaluator.Frame.{
  Frame, literal, hole, sequence, record_update, var, app, project, lam, let_frame, let_rec,
  ite_frame, match, native_call, native_host,
}

-- Which of the optional values are there.
unfoldable pub filled : {B : Type 0} → Option B → Option (Unit {0})
filled none = none
filled (some b) = some tt

unfoldable pub slots_filled : {B : Type 0} → List (Option B) → List (Option (Unit {0}))
slots_filled os = map filled os

unfoldable pub count : {B : Type 0} → List B → List (Unit {0})
count bs = map (λ b. tt) bs

-- The frame with `tt` for each value, environment and native task.
unfoldable pub shape :
    {P E X A N : Type 0} → Frame P E X A N → Frame (Unit {0}) (Unit {0}) X A (Unit {0})
unfolding filled slots_filled count
shape (literal frame) = literal frame
shape (native_host frame) = native_host frame
shape (hole frame) = hole (record {
  parent = frame.parent;
  expr = frame.expr;
  env = tt;
  state = frame.state;
  value = filled frame.value;
})
shape (var frame) = var (record {
  parent = frame.parent;
  expr = frame.expr;
  env = tt;
  state = frame.state;
  value = filled frame.value;
})
shape (project frame) = project (record {
  parent = frame.parent;
  expr = frame.expr;
  env = tt;
  state = frame.state;
  value = filled frame.value;
})
shape (lam frame) = lam (record {
  parent = frame.parent;
  expr = frame.expr;
  env = tt;
  state = frame.state;
  value = filled frame.value;
})
shape (sequence frame) = sequence (record {
  parent = frame.parent;
  expr = frame.expr;
  env = tt;
  state = frame.state;
  children = frame.children;
  values = slots_filled frame.values;
  remaining = frame.remaining;
})
shape (record_update frame) = record_update (record {
  parent = frame.parent;
  expr = frame.expr;
  env = tt;
  state = frame.state;
  base_value = filled frame.base_value;
  update_keys = frame.update_keys;
  update_children = frame.update_children;
  update_values = slots_filled frame.update_values;
  remaining_updates = frame.remaining_updates;
})
shape (app frame) = app (record {
  parent = frame.parent;
  expr = frame.expr;
  env = tt;
  state = frame.state;
  head = frame.head;
  spine = frame.spine;
  head_child = frame.head_child;
  arg_children = frame.arg_children;
  arg_values = slots_filled frame.arg_values;
  remaining = frame.remaining;
  next_arg_index = frame.next_arg_index;
  func = filled frame.func;
  arg = filled frame.arg;
})
shape (let_frame frame) = let_frame (record {
  parent = frame.parent;
  expr = frame.expr;
  env = tt;
  state = frame.state;
  def_value = filled frame.def_value;
})
shape (let_rec frame) = let_rec (record {
  parent = frame.parent;
  expr = frame.expr;
  env = tt;
  state = frame.state;
  recursive_env = filled frame.recursive_env;
  slots = count frame.slots;
  next_binding_index = frame.next_binding_index;
  binding_value = filled frame.binding_value;
})
shape (ite_frame frame) = ite_frame (record {
  parent = frame.parent;
  expr = frame.expr;
  env = tt;
  state = frame.state;
  cond_value = filled frame.cond_value;
  selected = frame.selected;
})
shape (match frame) = match (record {
  parent = frame.parent;
  expr = frame.expr;
  env = tt;
  state = frame.state;
  scrutinee_value = filled frame.scrutinee_value;
  arms = frame.arms;
  next_arm_index = frame.next_arm_index;
  matched_env = filled frame.matched_env;
})
shape (native_call frame) =
    native_call (record { parent = frame.parent; state = frame.state; task = tt })

-- A shape with the roots that stand in it.
abbrev pub in_shape : {F R : Type 0} → F → R → F × R
in_shape f rs = (f, rs)
