-- ===== src/Types/Builtin.antt =====
-- rex-typesystem/src/types.rs, `BuiltinTypeId`: the built-in type constructors, their names in the
-- surface syntax and their arities.
use rex.Prelude.{
  ℕ, String, Option, none, some, ◌≡◌, ◌↔◌, refl, ap, ◌∙◌, if◌then◌else◌, Bool-cases, inl, inr,
}
use text.Mathlib.Text.{◌==◌}
use text.Mathlib.TextEquality.{eq_iff}

pub data BuiltinTypeId : Type 0 where
  u8 u16 u32 u64 i8 i16 i32 i64 f32 f64 bool char string uuid hash date_time list dict option
        promise result :
      BuiltinTypeId

unfoldable pub BuiltinTypeId-discrete : Discrete BuiltinTypeId
BuiltinTypeId-discrete = hlevel

unfoldable pub as_str : BuiltinTypeId → String
as_str u8 = "u8"
as_str u16 = "u16"
as_str u32 = "u32"
as_str u64 = "u64"
as_str i8 = "i8"
as_str i16 = "i16"
as_str i32 = "i32"
as_str i64 = "i64"
as_str f32 = "f32"
as_str f64 = "f64"
as_str bool = "Bool"
as_str char = "Char"
as_str string = "String"
as_str uuid = "UUID"
as_str hash = "Hash"
as_str date_time = "DateTime"
as_str list = "List"
as_str dict = "Dict"
as_str option = "Option"
as_str promise = "Promise"
as_str result = "Result"

unfoldable pub builtin_arity : BuiltinTypeId → ℕ
builtin_arity list = 1
builtin_arity dict = 1
builtin_arity option = 1
builtin_arity promise = 1
builtin_arity result = 2
builtin_arity _ = 0

unfoldable pub from_name : String → Option BuiltinTypeId
from_name s =
    if s == "u8"
    then some u8
    else if s == "u16"
    then some u16
    else if s == "u32"
    then some u32
    else if s == "u64"
    then some u64
    else if s == "i8"
    then some i8
    else if s == "i16"
    then some i16
    else if s == "i32"
    then some i32
    else if s == "i64"
    then some i64
    else if s == "f32"
    then some f32
    else if s == "f64"
    then some f64
    else if s == "Bool"
    then some bool
    else if s == "Char"
    then some char
    else if s == "String"
    then some string
    else if s == "UUID"
    then some uuid
    else if s == "Hash"
    then some hash
    else if s == "DateTime"
    then some date_time
    else if s == "List"
    then some list
    else if s == "Dict"
    then some dict
    else if s == "Option"
    then some option
    else if s == "Promise"
    then some promise
    else if s == "Result"
    then some result
    else none

from_name-as_str : (id : BuiltinTypeId) → from_name (as_str id) ≡ some id
unfolding from_name as_str
from_name-as_str u8 = refl
from_name-as_str u16 = refl
from_name-as_str u32 = refl
from_name-as_str u64 = refl
from_name-as_str i8 = refl
from_name-as_str i16 = refl
from_name-as_str i32 = refl
from_name-as_str i64 = refl
from_name-as_str f32 = refl
from_name-as_str f64 = refl
from_name-as_str bool = refl
from_name-as_str char = refl
from_name-as_str string = refl
from_name-as_str uuid = refl
from_name-as_str hash = refl
from_name-as_str date_time = refl
from_name-as_str list = refl
from_name-as_str dict = refl
from_name-as_str option = refl
from_name-as_str promise = refl
from_name-as_str result = refl

-- One test of the chain: a hit is the name of its constructor, a miss leaves the rest.
next_name :
    (s name : String) (c : BuiltinTypeId) {rest : Option BuiltinTypeId} {id : BuiltinTypeId}
    → name ≡ as_str c
    → (rest ≡ some id → s ≡ as_str id)
    → (if s == name then some c else rest) ≡ some id
    → s ≡ as_str id
next_name s name c is_name go h = elim (Bool-cases (s == name)) [
  | inl hit ↦
      let here : some c ≡ some _ = (rw hit at h) in (eq_iff s name).0 hit ∙ is_name ∙ ap as_str (cc)
  | inr miss ↦ go (rw miss at h)
]

-- A name is read as a built-in type constructor exactly when it is the name that constructor has.
pub from_name_iff : (s : String) (id : BuiltinTypeId) → (from_name s ≡ some id) ↔ (s ≡ as_str id)
unfolding from_name as_str
from_name_iff s id = (found, λ e. rw e (from_name-as_str id))
  where
    found : from_name s ≡ some id → s ≡ as_str id
    found = next_name s "u8" u8 refl (
        next_name s "u16" u16 refl (
          next_name s "u32" u32 refl (
            next_name s "u64" u64 refl (
              next_name s "i8" i8 refl (
                next_name s "i16" i16 refl (
                  next_name s "i32" i32 refl (
                    next_name s "i64" i64 refl (
                      next_name s "f32" f32 refl (
                        next_name s "f64" f64 refl (
                          next_name s "Bool" bool refl (
                            next_name s "Char" char refl (
                              next_name s "String" string refl (
                                next_name s "UUID" uuid refl (
                                  next_name s "Hash" hash refl (
                                    next_name s "DateTime" date_time refl (
                                      next_name s "List" list refl (
                                        next_name s "Dict" dict refl (
                                          next_name s "Option" option refl (
                                            next_name s "Promise" promise refl (
                                              next_name s "Result" result refl
                                                (λ h. cc)))))))))))))))))))))
