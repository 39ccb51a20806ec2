-- ===== src/Evaluator/Scheduler/Bounds.antt =====
-- The loops that move work between the two queues keep its order, and the active queue its length.
use rex.Prelude.{
  ℕ, zero, suc, ◌≤◌, List, [], ◌∷◌, ◌++◌, some, false, ◌≡◌, refl, ap, sym, ◌∙◌, arith, ltb, ltb→lt,
  length, length-append, append_assoc, inl, inr, Bool-cases, ◌⊎◌,
}
use rex.Evaluator.Scheduler.{
  EvalWorkItem, EvalScheduler, pop_back, keep, enforce_loop, admit_loop, enforce_ready_limit,
  admit_deferred_ready,
}

module _ {A : Type 0} where
  pop_back_lem :
      (x : A) (xs : List A)
      → (ys : List A) × (y : A) × (pop_back (x ∷ xs) ≡ some (ys, y)) × (ys ++ y ∷ [] ≡ x ∷ xs)
  unfolding pop_back keep
  pop_back_lem x [] = ([], x, refl, refl)
  pop_back_lem x (z ∷ xs) =
      let (ys, y, e, h) = pop_back_lem z xs in (x ∷ ys, y, ap (keep x) e, ap (λ l. x ∷ l) h)

  -- The two queues together hold `all` in order, the active one within the limit.
  abbrev pub Holds : List A → ℕ → List A × List A → Type 0
  Holds all limit p = (p.0 ++ p.1 ≡ all) × (length p.0 ≤ limit)

  Holds-move :
      (limit : ℕ) (p : List A × List A) (ys : List A) (y : A) (ready deferred : List A)
      → ys ++ y ∷ [] ≡ ready
      → Holds (ys ++ y ∷ deferred) limit p
      → Holds (ready ++ deferred) limit p
  Holds-move limit p ys y ready deferred same (h, k) =
      (h ∙ sym (append_assoc ys (y ∷ []) deferred) ∙ ap (λ l. l ++ deferred) same, k)

  -- With a round of fuel for each item the loop keeps the order of the work, and ends within the
  -- limit.
  pub enforce_loop_lem :
      (f limit : ℕ) (ready deferred : List A)
      → length ready ≤ f
      → Holds (ready ++ deferred) limit (enforce_loop f limit ready deferred)
  unfolding enforce_loop
  enforce_loop_lem zero limit [] deferred h = (refl, omega arith)
  enforce_loop_lem zero limit (x ∷ xs) deferred h = absurd (omega arith)
  enforce_loop_lem (suc f) limit [] deferred h = rw (small, enforce_loop) (refl, omega arith)
    where
      small : ltb limit (length {A = A} []) ≡ false
      small = ground arith
  enforce_loop_lem (suc f) limit (x ∷ xs) deferred h =
      let (ys, y, e, same) = pop_back_lem x xs in
      let len = length-append ys (y ∷ []) in
      elim (Bool-cases (ltb limit (length (x ∷ xs)))) [
        | inl over ↦
            rw (over, e, enforce_loop)
              (Holds-move limit (enforce_loop f limit ys (y ∷ deferred)) ys y (x ∷ xs) deferred same
                (enforce_loop_lem f limit ys (y ∷ deferred) (omega (arith, len, ap length same))))
        | inr fits ↦ rw (fits, enforce_loop) (refl, ground arith)
      ]

  pub admit_loop_lem :
      (limit : ℕ) (ready deferred : List A)
      → length ready ≤ limit
      → Holds (ready ++ deferred) limit (admit_loop limit ready deferred)
        × (((admit_loop limit ready deferred).1 ≡ [])
            ⊎ (length (admit_loop limit ready deferred).0 ≡ limit))
  unfolding admit_loop
  admit_loop_lem limit ready [] h = ((refl, h), inl refl)
  admit_loop_lem limit ready (item ∷ deferred) h = elim (Bool-cases (ltb (length ready) limit)) [
    | inl room ↦
        let (held, full) =
          admit_loop_lem limit (ready ++ item ∷ []) deferred
            (omega (arith, length-append ready (item ∷ []), ltb→lt _ _ room)) in
        rw (room, admit_loop) ((held.0 ∙ append_assoc ready (item ∷ []) deferred, held.1), full)
    | inr none_left ↦ rw (none_left, admit_loop) ((refl, h), inr (ground arith))
  ]

module _ {P : Type 0} where
  -- The work of the scheduler, next first.
  abbrev pub contents : EvalScheduler P → List (EvalWorkItem P)
  contents s = s.ready ++ s.deferred_ready

  pub record IsValid (s : EvalScheduler P) : Type 0 where
    pub positive : 1 ≤ s.ready_work_limit
    pub within : length s.ready ≤ s.ready_work_limit

  pub enforce_ready_limit_lem :
      (s : EvalScheduler P)
      → 1 ≤ s.ready_work_limit
      → (contents (enforce_ready_limit s) ≡ contents s) × IsValid (enforce_ready_limit s)
  unfolding enforce_ready_limit
  enforce_ready_limit_lem s pos =
      let (h, k) =
        enforce_loop_lem (length s.ready) s.ready_work_limit s.ready s.deferred_ready
          (omega arith) in
      (h, record { positive = pos; within = k })

  pub admit_deferred_ready_lem :
      (s : EvalScheduler P)
      → IsValid s
      → (contents (admit_deferred_ready s) ≡ contents s)
        × IsValid (admit_deferred_ready s)
        × (((admit_deferred_ready s).deferred_ready ≡ [])
            ⊎ (length (admit_deferred_ready s).ready ≡ (admit_deferred_ready s).ready_work_limit))
  unfolding admit_deferred_ready
  admit_deferred_ready_lem s v =
      let ((h, k), full) = admit_loop_lem s.ready_work_limit s.ready s.deferred_ready v.within in
      (h, record { positive = v.positive; within = k }, full)
