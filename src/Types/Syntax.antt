-- ===== src/Types/Syntax.antt =====
-- rex-typesystem/src/types.rs: `TypeVar`, `TypeConst`, `Type` and `TypeKind`, with the functions
-- that build them. `Type` is a word of the proof language, so the source's `Type` and `TypeKind`
-- are one data type `Ty` here: the `Arc` between them shares memory only. A `Symbol` is an interned
-- string, compared by its text. The vectors inside a tuple and a record are `Tys` and `Fields`.
use rex.Prelude.{ℕ, String, Option, none, some, Bool, false, ◌&&◌, if◌then◌else◌, decide, ◌==◌}
use text.Mathlib.Text.{◌==◌ as str_eq}
use rex.Types.Builtin.{
  BuiltinTypeId, BuiltinTypeId-discrete, as_str, builtin_arity, from_name, list, dict, option,
  promise, result,
}

abbrev pub Symbol : Type 0
Symbol = String

abbrev pub TypeVarId : Type 0
TypeVarId = ℕ

pub record TypeVar : Type 0 where
  pub id : TypeVarId
  pub name : Option Symbol

pub data TypeConst : Type 0 where
  builtin : BuiltinTypeId → TypeConst
  user : Symbol → ℕ → TypeConst

mutual
  pub data Ty : Type 0 where
    var : TypeVar → Ty
    con : TypeConst → Ty
    app : Ty → Ty → Ty
    fun : Ty → Ty → Ty
    tuple : Tys → Ty
    record_ty : Fields → Ty

  pub data Tys : Type 0 where
    nil : Tys
    cons : Ty → Tys → Tys

  pub data Fields : Type 0 where
    end : Fields
    field : Symbol → Ty → Fields → Fields

-- `PartialEq`, derived for both types.
unfoldable pub builtin_eq : BuiltinTypeId → BuiltinTypeId → Bool
unfolding BuiltinTypeId-discrete decide
builtin_eq a b = decide (BuiltinTypeId-discrete a b)

unfoldable pub const_eq : TypeConst → TypeConst → Bool
unfolding builtin_eq
const_eq (builtin a) (builtin b) = builtin_eq a b
const_eq (user n a) (user m b) = str_eq n m && (a == b)
const_eq _ _ = false

unfoldable pub builtin_id : TypeConst → Option BuiltinTypeId
builtin_id (builtin id) = some id
builtin_id (user _ _) = none

unfoldable pub is_builtin : TypeConst → BuiltinTypeId → Bool
unfolding builtin_eq
is_builtin (builtin c) id = builtin_eq c id
is_builtin (user _ _) id = false

unfoldable pub name_str : TypeConst → String
name_str (builtin id) = as_str id
name_str (user name _) = name

unfoldable pub user_name : TypeConst → Option Symbol
user_name (builtin _) = none
user_name (user name _) = some name

unfoldable pub const_arity : TypeConst → ℕ
const_arity (builtin id) = builtin_arity id
const_arity (user _ arity) = arity

unfoldable pub user_con : String → ℕ → Ty
user_con name arity = con (user name arity)

abbrev pub builtin_ty : BuiltinTypeId → Ty
builtin_ty id = con (builtin id)

unfoldable pub con_named : Option BuiltinTypeId → String → ℕ → Ty
con_named none name arity = user_con name arity
con_named (some id) name arity =
    if builtin_arity id == arity then builtin_ty id else user_con name arity

-- `Type::con`
unfoldable pub con_ty : String → ℕ → Ty
unfolding con_named user_con
con_ty name arity = con_named (from_name name) name arity

unfoldable pub list_ty : Ty → Ty
list_ty elem = app (builtin_ty list) elem

unfoldable pub dict_ty : Ty → Ty
dict_ty elem = app (builtin_ty dict) elem

unfoldable pub option_ty : Ty → Ty
option_ty elem = app (builtin_ty option) elem

unfoldable pub promise_ty : Ty → Ty
promise_ty elem = app (builtin_ty promise) elem

-- `Result` is applied to the error first, so that `Result err` can be partially applied.
unfoldable pub result_ty : Ty → Ty → Ty
result_ty ok err = app (app (builtin_ty result) err) ok
