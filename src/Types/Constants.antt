-- ===== src/Types/Constants.antt =====
-- `Type::con` against what a type constructor says of itself.
use rex.Prelude.{
  ℕ, String, some, false, ◌≡◌, refl, sym, ◌⊎◌, inl, inr, ◌==◌, ==_iff, Bool-cases, Option-cases, ap,
  ◌∙◌,
}
use rex.Types.Builtin.{BuiltinTypeId, from_name, from_name_iff, builtin_arity}
use rex.Types.Syntax.{con, TypeConst, builtin, user, con_ty, con_named, name_str, const_arity}

-- `Type::con` gives a constructor with the name and the arity asked for: the built-in one exactly
-- when the name is a built-in name and the arity its arity, else a user constructor.
pub con_ty_lem :
    (name : String) (arity : ℕ)
    → (c : TypeConst) × (con_ty name arity ≡ con c)
      × (name_str c ≡ name)
      × (const_arity c ≡ arity)
      × (((id : BuiltinTypeId) × (c ≡ builtin id)
            × (from_name name ≡ some id)
            × (builtin_arity id ≡ arity))
          ⊎ ((c ≡ user name arity)
              × ((id : BuiltinTypeId) → from_name name ≡ some id → builtin_arity id ≡ arity → ⊥)))
con_ty_lem name arity = elim (Option-cases (from_name name)) [
  | inl unknown ↦ (
    user name arity,
    unfold con_ty in rw unknown refl,
    unfold name_str in refl,
    unfold const_arity in refl,
    inr (refl, λ id h k. cc (h, unknown)),
  )
  | inr (id, known) ↦ elim (Bool-cases (builtin_arity id == arity)) [
    | inl fits ↦ (
      builtin id,
      unfold con_ty in rw (known, con_named, fits) refl,
      unfold name_str in sym ((from_name_iff name id).0 known),
      unfold const_arity in (==_iff _ arity).0 fits,
      inl (id, refl, known, (==_iff _ arity).0 fits),
    )
    | inr differs ↦ (
      user name arity,
      unfold con_ty in rw (known, con_named, differs) refl,
      unfold name_str in refl,
      unfold const_arity in refl,
      inr (refl, differ id known differs),
    )
  ]
]
  where
    differ :
        (id : BuiltinTypeId)
        → from_name name ≡ some id
        → (builtin_arity id == arity) ≡ false
        → (j : BuiltinTypeId) → from_name name ≡ some j
        → builtin_arity j ≡ arity
        → ⊥
    differ id known differs j h k =
        let same : j ≡ id = (cc (h, known)) in
        cc (differs, (==_iff (builtin_arity id) arity).1 (sym (ap builtin_arity same) ∙ k))
