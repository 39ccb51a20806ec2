-- ===== src/Outcome/Settles.antt =====
-- A run on fuel settles: from some fuel on it has one outcome, which is an error or a value with
-- the property `P`. With more fuel nothing changes.
use rex.Prelude.{
  ℕ, zero, suc, ◌≤◌, max, ◌≡◌, refl, ◌∙◌, ap, arith, Bool, true, false, if◌then◌else◌,
}
use rex.Outcome.{Outcome, ok, err, out_of_fuel, TypeError, ◌>>=◌}

pub data Ends {A : Type 0} (P : A → Type 0) : Outcome A → Type 0 where
  returns : {a : A} → P a → Ends P (ok a)
  raises : {e : TypeError} → Ends P (err e)

abbrev pub Settles : {A : Type 0} → (ℕ → Outcome A) → (A → Type 0) → Type 0
Settles {A} run P = (f : ℕ) × (r : Outcome A) × ((g : ℕ) → f ≤ g → run g ≡ r) × Ends P r

module _ {A : Type 0} {P : A → Type 0} where
  pub settles_ok : (a : A) → P a → Settles (λ _. ok a) P
  settles_ok a h = (0, ok a, (λ g _. refl), returns h)

  pub settles_err : (e : TypeError) → Settles (λ _. err e) P
  settles_err e = (0, err e, (λ g _. refl), raises)

  -- One unit of fuel more.
  pub settles_suc :
      (run next : ℕ → Outcome A) → ((g : ℕ) → run (suc g) ≡ next g) → Settles next P → Settles run P
  settles_suc run next step (f, r, same, ends) = (suc f, r, later, ends)
    where
      later : (g : ℕ) → suc f ≤ g → run g ≡ r
      later zero h = absurd (omega arith)
      later (suc g) h = step g ∙ same g (omega arith)

  pub settles_weaken :
      (run : ℕ → Outcome A) {Q : A → Type 0} → ((a : A) → P a → Q a) → Settles run P → Settles run Q
  settles_weaken run k (f, r, same, returns h) = (f, r, same, returns (k _ h))
  settles_weaken run k (f, r, same, raises) = (f, r, same, raises)

  pub settles_if :
      (b : Bool) (x y : ℕ → Outcome A)
      → (b ≡ true → Settles x P)
      → (b ≡ false → Settles y P)
      → Settles (λ g. if b then x g else y g) P
  settles_if true x y hx hy = hx refl
  settles_if false x y hx hy = hy refl

  pub settles_bind :
      {B : Type 0} {Q : B → Type 0} (run : ℕ → Outcome A) (next : A → ℕ → Outcome B)
      → Settles run P
      → ((a : A) → P a → Settles (next a) Q)
      → Settles (λ g. run g >>= λ a. next a g) Q
  settles_bind run next (f, ok a, same, returns h) k =
      let (f', r, same', ends) = k a h in
      (
        max f f',
        r,
        (λ g le. ap (λ o. o >>= λ a. next a g) (same g (omega arith)) ∙ same' g (omega arith)),
        ends,
      )
  settles_bind run next (f, err e, same, raises) k =
      (f, err e, (λ g le. ap (λ o. o >>= λ a. next a g) (same g le)), raises)
  settles_bind run next (f, out_of_fuel, same, x) k = elim x [ ]
