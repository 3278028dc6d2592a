-- ===== src/Observers/Observer/Full.antt =====
-- How many updates it takes until the observations of an observer are applicable.
use utexas_art_ros_pkg.Base.{
  ℕ, suc, ◌≡◌, refl, sym, ap, ◌∙◌, Bool, not, List, [], ◌∷◌, ◌++◌, length, length-append, ltb, ◌==◌,
  ℤ, arith,
}
use utexas_art_ros_pkg.Numeric.{Floats}
use utexas_art_ros_pkg.Observers.Filters.{
  FilterBase, fed, Fills, configured, is_full, number_of_observations,
}
use utexas_art_ros_pkg.Observers.Observer.{Observer, new_observer, report}

module _ {F S : Type 0} (base : FilterBase F S) where
  fed-append :
      (s : S) (xs : List F) (x : F)
      → fed base s (xs ++ (x ∷ [])) ≡ (base.update (fed base s xs) x).0
  fed-append s [] x = refl
  fed-append s (y ∷ ys) x = fed-append (base.update s y).0 ys x

  is_full-fed :
      Fills base
      → (xs : List F) → is_full base (fed base (configured base) xs) ≡ not (ltb (length xs) 5)
  unfolding is_full
  is_full-fed fills xs =
      ap (λ n. n == number_of_observations) (fills number_of_observations xs) ∙ ground arith

module _ {F M V : Type 0} ⦃fl : Floats F⦄ (median : FilterBase F M) (mean : FilterBase F V) where
  -- an observer that has been updated `k` times
  pub record Updated (k : ℕ) (o : Observer F M V) : Type 0 where
    pub samples : List F
    pub count : length samples ≡ k
    pub holds : o.velocity_filter ≡ fed mean (configured mean) samples
    pub applies : o.observation.applicable ≡ is_full mean o.velocity_filter

  pub Updated-applicable :
      Fills mean
      → (k : ℕ) (o : Observer F M V) → Updated k o
      → o.observation.applicable ≡ not (ltb k 5)
  Updated-applicable fills k o u =
      u.applies
      ∙ (ap (is_full mean) u.holds
          ∙ (is_full-fed mean fills u.samples ∙ ap (λ n. not (ltb n 5)) u.count))

  pub new_observer-Updated : Fills mean → (id : ℤ) → Updated 0 (new_observer median mean id)
  unfolding new_observer
  new_observer-Updated fills id = record {
    samples = [];
    count = refl;
    holds = refl;
    applies = sym (is_full-fed mean fills []);
  }

  pub report-Updated :
      (k : ℕ) (twice : Bool) (o : Observer F M V) (distance now : F)
      → Updated k o
      → Updated (suc k) (report median mean twice o distance now)
  unfolding report
  report-Updated k twice o distance now u =
      let filt_distance = (median.update o.distance_filter distance).1 in
      let time_change = fl.dsub now o.prev_update in
      let velocity =
        fl.to_float (fl.ddiv (fl.fsub filt_distance o.observation.distance) time_change) in
      record {
        samples = u.samples ++ (velocity ∷ []);
        count = omega (arith, u.count, length-append u.samples (velocity ∷ []));
        holds =
            ap (λ s. (mean.update s velocity).0) u.holds
            ∙ sym (fed-append mean (configured mean) u.samples velocity);
        applies = refl;
      }
