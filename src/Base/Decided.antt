-- ===== src/Base/Decided.antt =====
-- Runs whose loops end, with a rule for each way to build a run, which `search` applies.
use mathlib.Core.Path.{◌≡◌, refl}
use mathlib.Core.Bool.{Bool, true, false}
use boost_practice.Base.Tests.{if◌then◌else◌}
use boost_practice.Base.Outcome.{Run, ok, fault, ◌>>=◌, check}

-- A run that returns or faults: its loops have not run out of fuel.
pub data IsDecided {ℓ} {A : Type ℓ} (r : Run A) : Type ℓ where
  returns : (a : A) → r ≡ ok a → IsDecided r
  faults : r ≡ fault → IsDecided r

pub ok-IsDecided {ℓ} : {A : Type ℓ} (a : A) → IsDecided (ok a)
ok-IsDecided a = returns a refl

pub fault-IsDecided {ℓ} : (A : Type ℓ) → IsDecided {A = A} fault
fault-IsDecided A = faults refl

pub bind-IsDecided {ℓ κ} :
    {A : Type ℓ} {B : Type κ} (r : Run A) (f : A → Run B)
    → IsDecided r
    → ((a : A) → IsDecided (f a))
    → IsDecided (r >>= f)
bind-IsDecided r f (returns a e) d = rw e (d a)
bind-IsDecided r f (faults e) d = faults (rw e)

pub check-IsDecided : (b : Bool) → IsDecided (check b)
check-IsDecided true = ok-IsDecided tt
check-IsDecided false = faults refl

pub after_check-IsDecided {ℓ} :
    {A : Type ℓ} (b : Bool) (r : Run A) → IsDecided r → IsDecided (check b >>= λ _. r)
after_check-IsDecided b r d = bind-IsDecided (check b) (λ _. r) (check-IsDecided b) (λ _. d)

pub if-IsDecided {ℓ} :
    {A : Type ℓ} (b : Bool) (r r' : Run A)
    → IsDecided r
    → IsDecided r'
    → IsDecided (if b then r else r')
if-IsDecided true r r' d d' = d
if-IsDecided false r r' d d' = d'

pub ruleset decided_rules =
    (ok-IsDecided, fault-IsDecided, bind-IsDecided, check-IsDecided, if-IsDecided)
