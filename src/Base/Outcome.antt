-- ===== src/Base/Outcome.antt =====
-- The outcome of a handler. `fault` is a failed assertion, undefined behaviour or an exception that
-- nothing catches; `spent` is a loop of the model that its fuel did not carry to its end.
use mathlib.Core.Bool.{Bool, true, false}
use mathlib.Core.Path.{◌≡◌, refl}
use mathlib.Core.Logic.{◌⊎◌, inl, inr}
use mathlib.Core.List.{List, [], ◌∷◌}

pub data Run {κ} (X : Type κ) : Type κ where
  spent : Run X
  fault : Run X
  ok : X → Run X

infixl 5 ◌>>=◌
abbrev pub ◌>>=◌ {κ μ} : {X : Type κ} {Y : Type μ} → Run X → (X → Run Y) → Run Y
spent >>= next = spent
fault >>= next = fault
ok x >>= next = next x

-- Where a sequence returns, its first part returns too.
pub first_returns {κ μ} :
    {X : Type κ} {Y : Type μ} (next : X → Run Y) (first : Run X) {y : Y}
    → (first >>= next) ≡ ok y
    → (x : X) × (first ≡ ok x) × (next x ≡ ok y)
first_returns next spent e = cc
first_returns next fault e = cc
first_returns next (ok x) e = (x, refl, e)

-- Where a sequence faults, one of its parts does.
pub part_faults {κ μ} :
    {X : Type κ} {Y : Type μ} (next : X → Run Y) (first : Run X)
    → (first >>= next) ≡ fault
    → (first ≡ fault) ⊎ ((x : X) × (first ≡ ok x) × (next x ≡ fault))
part_faults next spent e = cc
part_faults next fault e = inl refl
part_faults next (ok x) e = inr (x, refl, e)

-- A handler called for each value of a list, in order.
abbrev pub for_each {κ μ} : {V : Type κ} {S : Type μ} → (V → S → Run S) → S → List V → Run S
for_each h s [] = ok s
for_each h s (v ∷ rest) = h v s >>= λ s'. for_each h s' rest

-- `assert(b)`.
abbrev pub check : Bool → Run (Unit {0})
check b = elim b [ true ↦ ok tt | false ↦ fault ]

-- What follows an assertion.
infixl 5 ◌>>◌
abbrev pub ◌>>◌ {κ} : {Y : Type κ} → Run (Unit {0}) → Run Y → Run Y
asserted >> next = asserted >>= λ _. next
