-- ===== src/Types/Unify/Elements.antt =====
-- `record_elem_type` of the pure unifier: its map makes every field's type compatible with one type.
use rex.Prelude.{ℕ, ◌<◌, ◌+◌, [], Bool, ◌≡◌, refl, ap, sym, ◌∙◌, arith}
use rex.Types.Syntax.{Ty, Fields, end, field, Symbol}
use rex.Types.Inst.{inst}
use rex.Types.Subst.{Subst}
use rex.Types.Apply.{apply}
use rex.Types.Ftv.{size, size_fields}
use rex.Types.Vars.{Vars}
use rex.Types.Unify.{unify, record_elem_rest, record_elem_type}
use rex.Types.Unify.Compat.{Compat, Compat-refl}
use rex.Types.Unify.Solved.{Solved, Solved-nil, apply-apply_self}
use rex.Outcome.Settles.{Settles, settles_ok, settles_weaken}
use rex.Types.Unify.Loops.{Calls, Fits, FitsFields, Later, Later-refl, Later-trans, advance}

module _ (higher : Bool) (vars : Vars) (m : ℕ) (calls : Calls higher vars m) where
  -- The element type of a record: `first`, as the returned map has it, with which every field's
  -- type is compatible.
  abbrev pub AllAt : Subst → Ty → Fields → Type 0
  AllAt s first end = Unit
  AllAt s first (field _ t fs) = Compat (apply s first) (apply s t) × AllAt s first fs

  pub AllAt-Later :
      (s s' : Subst) (first : Ty) (fs : Fields) → Later s s' → AllAt s first fs → AllAt s' first fs
  AllAt-Later s s' first end later a = tt
  AllAt-Later s s' first (field _ t fs) later a =
      (later.0 first t a.0, AllAt-Later s s' first fs later a.1)

  abbrev pub Elements : Ty → Fields → Subst × Ty → Type 0
  Elements first fs p = Solved higher vars p.0 × (p.1 ≡ apply p.0 first) × AllAt p.0 first fs

  record_elem_rest-Settles :
      (s : Subst) (first current : Ty) (fs : Fields)
      → Solved higher vars s
      → apply s current ≡ apply s first
      → Fits higher vars first
      → FitsFields higher vars m calls fs
      → size first + size_fields fs < m
      → Settles
          (λ g. record_elem_rest (unify g) s current fs)
          (λ p. Elements first fs p × Later s p.0)
  unfolding record_elem_rest size inst
  record_elem_rest-Settles s first current end sol same f1 f2 small =
      settles_ok (s, apply s current) ((sol, same, tt), Later-refl higher vars s sol)
  record_elem_rest-Settles s first current (field n ty fs) sol same f1 f2 small = rw same (
      advance higher vars m calls s first ty
        (λ s' g. record_elem_rest (unify g) s' (apply s' current) fs) sol f1 f2.0 (omega arith)
        λ s' later (sol', c).
          settles_weaken _
            (λ p (e, later').
              ((e.0, e.1, (later'.0 first ty c, e.2)), Later-trans s s' p.0 later later'))
            (record_elem_rest-Settles s' first (apply s' current) fs sol'
              (apply-apply_self sol' current
                ∙ sym (later.1 current)
                ∙ ap (apply s') same
                ∙ later.1 first)
              f1 f2.1 (omega arith)))

  pub record_elem_type-Settles :
      (n : Symbol) (first : Ty) (fs : Fields)
      → Fits higher vars first
      → FitsFields higher vars m calls fs
      → size first + size_fields fs < m
      → Settles
          (λ g. record_elem_type (unify g) (field n first fs))
          (Elements first (field n first fs))
  unfolding record_elem_type inst
  record_elem_type-Settles n first fs f1 f2 small =
      settles_weaken _ (λ p (e, later). (e.0, e.1, (Compat-refl (apply p.0 first), e.2)))
        (record_elem_rest-Settles [] first first fs (Solved-nil higher vars) refl f1 f2 small)
