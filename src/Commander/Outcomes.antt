-- ===== src/Commander/Outcomes.antt =====
-- How a run of the commander ends, art_nav/src/commander/command.cc: properties of a run without a
-- fault.
use utexas_art_ros_pkg.Commander.State.{Run, ok, fault, ◌>>=◌}

-- A run that ends without a fault ends with a property.
abbrev pub Ensures {ℓ κ} : {A : Type ℓ} → (A → Type κ) → Run A → Type κ
Ensures P (ok a) = P a
Ensures P fault = Unit

pub Ensures-bind {ℓ κ μ ν} :
    {A : Type ℓ} {B : Type κ} (P : A → Type μ) (Q : B → Type ν) (r : Run A) (f : A → Run B)
    → Ensures P r
    → ((a : A) → P a → Ensures Q (f a))
    → Ensures Q (r >>= f)
Ensures-bind P Q (ok a) f h k = k a h
Ensures-bind P Q fault f h k = tt

-- where nothing is known of the first result
pub Ensures-any {ℓ κ ν} :
    {A : Type ℓ} {B : Type κ} (Q : B → Type ν) (r : Run A) (f : A → Run B)
    → ((a : A) → Ensures Q (f a))
    → Ensures Q (r >>= f)
Ensures-any Q (ok a) f k = k a
Ensures-any Q fault f k = tt
