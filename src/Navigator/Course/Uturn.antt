-- ===== src/Navigator/Course/Uturn.antt =====
-- Where Course finds a U-turn in an order: uturn_order_index of art_nav/src/navigator/course.cc.
use native.Mathlib.Decide.{dec_le}
use utexas_art_ros_pkg.Base.{
  ℕ, zero, suc, ◌+◌, ◌≤◌, ◌<◌, ◌≡◌, ◌≢◌, ◌↔◌, ap, sym, subst, ◌∙◌, inl, inr, Bool-cases, true,
  false, ℤ, pos, negsuc, arith, false≢true,
}
use utexas_art_ros_pkg.Numeric.{Floats}
use utexas_art_ros_pkg.RoadMap.Element.{same_lane}
use utexas_art_ros_pkg.Messages.{Order}
use utexas_art_ros_pkg.Navigator.Course.{
  waypt_id, uturn_waypt, uturn_from, uturn_order_index, is_index,
}

module _ {F : Type 0} ⦃fl : Floats F⦄ (o : Order F) where
  -- A U-turn at the index i, to which the way-points before it lead in the lane of the first.
  pub record UturnAt (first i : ℕ) : Type 0 where
    pub turns : o.next_uturn ≡ pos i
    pub one_lane : (j : ℕ) → first ≤ j → j ≤ i → same_lane (waypt_id j o) (waypt_id 0 o) ≡ true

  abbrev In : ℕ → Type 0
  In j = same_lane (waypt_id j o) (waypt_id 0 o) ≡ true

  is_index-eq : (i k : ℕ) → is_index i o.next_uturn ≡ true → o.next_uturn ≡ pos k → pos i ≡ pos k
  is_index-eq i k t e = ground (arith, ap (is_index i) e)

  is_index-turns : (i : ℕ) (u : ℤ) → is_index i u ≡ true → u ≡ pos i
  is_index-turns i (pos n) h = ground arith
  is_index-turns i (negsuc n) h = cc

  -- A U-turn at the index of the loop is found there.
  found_here :
      (i k m : ℕ)
      → In i
      → is_index i o.next_uturn ≡ true
      → (pos i ≡ pos k) ↔ ((i ≤ k) × (k < i + suc m) × UturnAt i k)
  found_here i k m lane turn = (
    λ e.
        let same : i ≡ k = ground arith in
        (
          omega arith,
          omega arith,
          record {
            turns = is_index-turns i _ turn ∙ e;
            one_lane = λ j h h'. subst In (let eq : i ≡ j = omega arith in eq) lane;
          },
        ),
    λ h. is_index-eq i k turn h.2.turns,
  )

  found_later :
      (i k m : ℕ) (r : ℤ)
      → In i
      → is_index i o.next_uturn ≡ false
      → (r ≡ pos k) ↔ ((suc i ≤ k) × (k < suc i + m) × UturnAt (suc i) k)
      → (r ≡ pos k) ↔ ((i ≤ k) × (k < i + suc m) × UturnAt i k)
  found_later i k m r lane on ih = (
    λ e. (
      omega (arith, (ih.0 e).0),
      omega (arith, (ih.0 e).1),
      record {
        turns = (ih.0 e).2.turns;
        one_lane = λ j h h'. elim (dec_le (suc i) j) [
          | yes above ↦ (ih.0 e).2.one_lane j above h'
          | no below ↦ subst In (let eq : i ≡ j = omega arith in eq) lane
        ];
      },
    ),
    λ h.
        let apart : i ≢ k = λ (e : i ≡ k). ground (arith, ap (is_index i) h.2.turns) in
        ih.1 (
          omega arith,
          omega arith,
          record { turns = h.2.turns; one_lane = λ j a b. h.2.one_lane j (omega arith) b },
        ),
  )

  uturn_from-Found :
      (rounds i k : ℕ)
      → (uturn_from rounds i o ≡ pos k) ↔ ((i ≤ k) × (k < i + rounds) × UturnAt i k)
  unfolding uturn_from uturn_waypt
  uturn_from-Found zero i k = (λ e. cc, λ h. absurd (omega arith))
  uturn_from-Found (suc rounds) i k = elim (Bool-cases (same_lane (waypt_id i o) (waypt_id 0 o))) [
    | inl lane ↦ elim (Bool-cases (is_index i o.next_uturn)) [
      | inl turn ↦ rw (lane, turn) (found_here i k rounds lane turn)
      | inr on ↦
          rw (lane, on) (found_later i k rounds _ lane on (uturn_from-Found rounds (suc i) k))
    ]
    | inr out ↦
        rw out (λ e. cc, λ h. absurd (false≢true (sym out ∙ h.2.one_lane i (omega arith) h.0)))
  ]

  -- The index found for a U-turn is that of the order if it lies between 1 and 3 and the way-points up to
  -- it are in the lane of the first; the result is never another index.
  pub uturn_order_index-Found :
      (k : ℕ) → (uturn_order_index o ≡ pos k) ↔ ((1 ≤ k) × (k ≤ 3) × UturnAt 1 k)
  unfolding uturn_order_index
  uturn_order_index-Found k = (
    λ e. let f = (uturn_from-Found 3 1 k).0 e in (f.0, omega arith, f.2),
    λ h. (uturn_from-Found 3 1 k).1 (h.0, omega arith, h.2),
  )
