-- ===== src/Prelude/Run.antt =====
-- The outcome of code that may leave the program by `exit(-1)`, or do what C leaves undefined: read
-- through NULL, or read or write outside an object.
use mathlib.Core.Path.{◌≡◌, refl}
use mathlib.Core.Bool.{Bool, true, false}
use mathlib.Core.Option.{Option, none, some}

pub data Run {ℓ} (A : Type ℓ) : Type ℓ where
  ok : A → Run A
  exits : Run A
  fault : Run A

infixl 5 ◌>>=◌ ◌>>◌
abbrev pub ◌>>=◌ {ℓ κ} : {X : Type ℓ} {Y : Type κ} → Run X → (X → Run Y) → Run Y
ok x >>= rest = rest x
exits >>= rest = exits
fault >>= rest = fault

abbrev pub ◌>>◌ {ℓ} : {Y : Type ℓ} → Run (Unit {0}) → Run Y → Run Y
first >> rest = first >>= λ _. rest

-- The code is defined only if the test holds.
abbrev pub defined : Bool → Run (Unit {0})
defined true = ok tt
defined false = fault

-- `if (p == NULL) exit(-1)` behind an allocation.
abbrev pub allocated : Bool → Run (Unit {0})
allocated true = ok tt
allocated false = exits

-- What a pointer leads to.
abbrev pub deref {ℓ} : {A : Type ℓ} → Option A → Run A
deref none = fault
deref (some a) = ok a

-- Inversion of a run that succeeds.
pub bind-ok {ℓ κ} :
    {X : Type ℓ} {Y : Type κ} (run : Run X) (rest : X → Run Y) {y : Y}
    → (run >>= rest) ≡ ok y
    → (x : X) × (run ≡ ok x) × (rest x ≡ ok y)
bind-ok (ok x) rest e = (x, refl, e)
bind-ok exits rest e = cc
bind-ok fault rest e = cc
