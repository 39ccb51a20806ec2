-- ===== src/Evaluator/Native/Tests/Store.antt =====
-- Values held in place, and the reading and making of them as a `RootScope`
-- (rex-engine/src/memory/heap.rs); the heap has no state here.
use rex.Prelude.{◌≡◌, ℕ, Bool, arith, refl, List, [], ◌∷◌, String}
use rex.Types.Builtin.{u8}
use rex.Types.Syntax.{builtin_ty}
use rex.Types.Syntax.{Ty, fun, is_builtin, const_eq}
use rex.Evaluator.FrameStore.{FrameId}
use rex.Evaluator.Native.Gather.Slots.{elem, Distinct}
use rex.Evaluator.Native.Gather.Order.{IsRest}
use rex.Types.Unify.{unify}
use rex.Types.Apply.{apply, apply_with_change}
use rex.Evaluator.Native.Apply.{application_result_type}
use rex.Evaluator.Native.Apply.Drive.{CanApply}
use rex.Evaluator.Frame.Effect.{pure, ◌>>=◌, ok, err}
use rex.Evaluator.Native.Scope.{Action, RootScope, native_type}

pub data Value : Type 0 where
  nothing : Value
  boolean : Bool → Value
  number : ℕ → Value
  text : String → Value
  pair : Value → Value → Value

abbrev pub of_list : List Value → Value
of_list [] = nothing
of_list (v ∷ vs) = pair v (of_list vs)

abbrev pub of_entries : List (String × Value) → Value
of_entries [] = nothing
of_entries (entry ∷ entries) = pair (pair (text entry.0) entry.1) (of_entries entries)

abbrev pub to_list : Value → List Value
to_list (pair v vs) = v ∷ to_list vs
to_list _ = []

abbrev read_bool : Value → Action Unit Bool
read_bool (boolean b) s = ok b s
read_bool _ s = err (native_type "bool" "value") s

abbrev read_text : Value → Action Unit String
read_text (text t) s = ok t s
read_text _ s = err (native_type "string" "value") s

abbrev read_adt : Value → Action Unit (String × List Value)
read_adt (pair (text t) vs) s = ok (t, to_list vs) s
read_adt _ s = err (native_type "adt" "value") s

abbrev pub store : RootScope Unit Value
store = record {
  cell_as_data = λ v s. ok (to_list v) s;
  root_as_bool = read_bool;
  root_as_list = λ v s. ok (to_list v) s;
  root_as_tuple = λ v s. ok (to_list v) s;
  root_as_string = read_text;
  root_as_adt = read_adt;
  type_name = λ v s. ok "value" s;
  alloc_root_bool = λ b s. ok (boolean b) s;
  alloc_root_u8 = λ n s. ok (number n) s;
  alloc_root_u64 = λ n s. ok (number n) s;
  alloc_root_float = λ b n s. ok (number n) s;
  alloc_root_list = λ vs s. ok (of_list vs) s;
  alloc_root_tuple = λ vs s. ok (of_list vs) s;
  alloc_root_dict = λ entries s. ok (of_entries entries) s;
  alloc_root_adt = λ tag vs s. ok (pair (text tag) (of_list vs)) s;
  alloc_root_overloaded = λ name typ s. ok (text name) s;
}

abbrev pub u8_ty : Ty
u8_ty = builtin_ty u8

abbrev pub step_ty : Ty
step_ty = fun u8_ty u8_ty

abbrev pub values : List Value
values = number 10 ∷ number 11 ∷ []

-- The second child answers first.
abbrev pub children : List FrameId
children = 5 ∷ 3 ∷ []

pub children-Distinct : Distinct children
unfolding elem
children-Distinct = (refl, (refl, tt))

pub children-IsRest : IsRest children [] (3 ∷ 5 ∷ [])
unfolding elem
children-IsRest = record {
  distinct = (refl, (refl, tt));
  ours = λ d m. ground (arith, m);
  new = λ d m. refl;
  covers = λ d m. ground (arith, m);
}

pub step_typed : (h : Unit) → application_result_type 3 step_ty u8_ty h ≡ ok u8_ty h
unfolding application_result_type unify apply apply_with_change const_eq is_builtin pure ◌>>=◌
step_typed h = refl

pub step-CanApply : CanApply Unit 3 step_ty u8_ty
step-CanApply = (u8_ty, step_typed)
