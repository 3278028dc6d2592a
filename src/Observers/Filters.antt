-- ===== src/Observers/Filters.antt =====
-- The filters of the observers: classes MeanFilter and MedianFilter of
-- art_observers/src/observers/filter.cc, over those of the package filters, which are a parameter.
use utexas_art_ros_pkg.Base.{ℕ, ◌≡◌, Bool, List, [], ◌∷◌, length, ◌==◌, ltb, if◌then◌else◌}

-- A filter of the package filters, with a state `S`: one whose circular buffer has just been reset to
-- a capacity, the update with a sample, which also gives the filtered value, and the number of
-- samples in the buffer.
pub record FilterBase (F S : Type 0) : Type 0 where
  pub reset : ℕ → S
  pub update : S → F → S × F
  pub size : S → ℕ

module _ {F S : Type 0} where
  -- the state after some samples
  abbrev pub fed : FilterBase F S → S → List F → S
  fed base s [] = s
  fed base s (x ∷ xs) = fed base (base.update s x).0 xs

  -- What the package documents of its circular buffer: it begins empty, and takes a sample at each
  -- update until it is full.
  abbrev pub Fills : FilterBase F S → Type 0
  Fills base =
      (n : ℕ) (xs : List F)
      → base.size (fed base (base.reset n) xs) ≡ (if ltb (length xs) n then length xs else n)

-- number_of_observations_, in both constructors
abbrev pub number_of_observations : ℕ
number_of_observations = 5

module _ {F S : Type 0} (base : FilterBase F S) where
  -- the filter after its constructor and `configure`
  abbrev pub configured : S
  configured = base.reset number_of_observations

  unfoldable pub is_full : S → Bool
  is_full s = base.size s == number_of_observations
