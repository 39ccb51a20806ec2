-- ===== src/Evaluator/Native/Gather/Slots.antt =====
-- rex-engine/src/evaluator/native_functions.rs: the slots of a task with children when some of them have
-- answered, and what a further answer does.
use rex.Prelude.{
  ℕ, suc, Bool, true, false, ◌||◌, List, [], ◌∷◌, Option, none, some, if◌then◌else◌, ◌==◌,
  get_elem?, set, length, replicate, map, ◌≡◌, refl, ap, arith, Bool-cases, inl, inr,
}
use rex.Evaluator.FrameStore.{FrameId}
use rex.Evaluator.Native.Gather.{next_position, position, all_some}

unfoldable pub elem : FrameId → List FrameId → Bool
elem c [] = false
elem c (d ∷ ds) = (d == c) || elem c ds

abbrev pub Distinct : List FrameId → Type 0
Distinct [] = Unit
Distinct (c ∷ cs) = (elem c cs ≡ false) × Distinct cs

-- How many answers are missing.
unfoldable pub missing : {V : Type 0} → List (Option V) → ℕ
missing [] = 0
missing (none ∷ slots) = suc (missing slots)
missing (some _ ∷ slots) = missing slots

module _ {V : Type 0} (answer : FrameId → V) where
  -- The slots when the children in `seen` have answered.
  unfoldable pub slots_of : List FrameId → List FrameId → List (Option V)
  unfolding elem
  slots_of seen [] = []
  slots_of seen (c ∷ cs) = (if elem c seen then some (answer c) else none) ∷ slots_of seen cs

  pub slots_of-nil :
      (children : List FrameId) → slots_of [] children ≡ replicate (length children) none
  unfolding slots_of elem
  slots_of-nil [] = refl
  slots_of-nil (c ∷ cs) = ap (λ slots. none ∷ slots) (slots_of-nil cs)

  pub missing-slots_of-nil :
      (children : List FrameId) → missing (slots_of [] children) ≡ length children
  unfolding slots_of elem missing
  missing-slots_of-nil [] = refl
  missing-slots_of-nil (c ∷ cs) = ap suc (missing-slots_of-nil cs)

  -- Another child than those of the list changes nothing.
  slots_of-other :
      (child : FrameId) (seen children : List FrameId)
      → elem child children ≡ false
      → slots_of (child ∷ seen) children ≡ slots_of seen children
  unfolding slots_of elem
  slots_of-other child seen [] h = refl
  slots_of-other child seen (c ∷ cs) h = ground (arith, slots_of-other child seen cs)

  pub position-none :
      (child : FrameId) (children : List FrameId)
      → elem child children ≡ false
      → position child children ≡ none
  unfolding position elem next_position
  position-none child [] h = refl
  position-none child (c ∷ cs) h = ground (arith, position-none child cs)

  pub slot_found :
      (child : FrameId) (seen children : List FrameId)
      → Distinct children
      → elem child children ≡ true
      → (i : ℕ) × (position child children ≡ some i)
        × (get_elem? (slots_of seen children) i
            ≡ some (if elem child seen then some (answer child) else none))
        × (set (slots_of seen children) i (some (answer child)) ≡ slots_of (child ∷ seen) children)
  unfolding position elem next_position slots_of
  slot_found child seen [] d h = absurd (cc)
  slot_found child seen (c ∷ cs) d h = elim (Bool-cases (c == child)) [
    | inl same ↦ (0, rw same, ground arith, ground (arith, slots_of-other child seen cs))
    | inr other ↦
        let (i, at, got, put) = slot_found child seen cs d.1 (ground arith) in
        (suc i, rw (other, at, next_position), got, ground (arith, put))
  ]

  pub missing-slots_of :
      (child : FrameId) (seen children : List FrameId)
      → Distinct children
      → elem child children ≡ true
      → elem child seen ≡ false
      → missing (slots_of seen children) ≡ suc (missing (slots_of (child ∷ seen) children))
  unfolding elem slots_of missing
  missing-slots_of child seen [] d h fresh = cc
  missing-slots_of child seen (c ∷ cs) d h fresh = elim (Bool-cases (c == child)) [
    | inl same ↦ ground (arith, slots_of-other child seen cs)
    | inr other ↦ ground (arith, missing-slots_of child seen cs)
  ]

  pub missing-suc :
      (child : FrameId) (seen children : List FrameId)
      → elem child children ≡ true
      → elem child seen ≡ false
      → (n : ℕ) × (missing (slots_of seen children) ≡ suc n)
  unfolding elem slots_of missing
  missing-suc child seen [] h fresh = cc
  missing-suc child seen (c ∷ cs) h fresh = elim (Bool-cases (elem c seen)) [
    | inl old ↦
        let (n, e) = missing-suc child seen cs (ground arith) fresh in (n, rw (old, missing) e)
    | inr new ↦ (missing (slots_of seen cs), rw (new, missing))
  ]

  pub none_missing :
      (seen children : List FrameId)
      → ((c : FrameId) → elem c children ≡ true → elem c seen ≡ true)
      → missing (slots_of seen children) ≡ 0
  unfolding elem slots_of missing
  none_missing seen [] all = refl
  none_missing seen (c ∷ cs) all =
      ground (arith, all c, none_missing seen cs (λ c' m. all c' (ground arith)))

  pub all_some-slots_of :
      (seen children : List FrameId)
      → missing (slots_of seen children) ≡ 0
      → slots_of seen children ≡ map some (map answer children)
  unfolding elem slots_of missing
  all_some-slots_of seen [] h = refl
  all_some-slots_of seen (c ∷ cs) h = ground (arith, all_some-slots_of seen cs)

pub all_some-some : {V : Type 0} (vs : List V) → all_some (map some vs) ≡ some vs
unfolding all_some
all_some-some [] = refl
all_some-some (v ∷ vs) = rw (all_some-some vs, all_some)
