-- ===== src/Navigator/Course/Plan/Choice.antt =====
-- Which lane find_passing_lane of art_nav/src/navigator/course.cc selects.
use mathlib.Core.Option.{some-injective}
use utexas_art_ros_pkg.Base.{
  ℕ, zero, suc, ◌+◌, ◌≤◌, ◌≡◌, ◌≢◌, refl, sym, subst, Bool, true, false, false≢true, List, pos,
  Option, none, some, if◌then◌else◌, arith,
}
use utexas_art_ros_pkg.Numeric.{Floats}
use utexas_art_ros_pkg.Lanes.Poly.{Poly}
use utexas_art_ros_pkg.Lanes.Closest.{get_closest_poly}
use utexas_art_ros_pkg.Lanes.Adjacent.{at_index, lower_lane, higher_lane}
use utexas_art_ros_pkg.Navigator.State.{Nav}
use utexas_art_ros_pkg.Navigator.Course.{waypt, waypt_id}
use utexas_art_ros_pkg.Navigator.Course.Plan.{Lanes}
use utexas_art_ros_pkg.Navigator.Course.Plan.Beside.{Beside, look_beside-Beside}
use utexas_art_ros_pkg.Navigator.Course.Plan.Passing.{
  Side, is_left_lane, choose_lane, look_beside, take_lane, pass_in, find_passing_lane,
}

-- the order of preference: forward before backward, then right before left
abbrev pub rank : Side → ℕ
rank s = (if s.forward then 0 else 2) + (if s.is_left then 1 else 0)

-- The lane to choose of the lower and the higher one; on the same side the higher one counts.
pub data Chosen : Option Side → Option Side → Option ℕ → Type 0 where
  neither : Chosen none none none
  only_lower : (s : Side) → Chosen (some s) none (some 0)
  only_higher : (t : Side) → Chosen none (some t) (some 1)
  same_side : (s t : Side) → s.is_left ≡ t.is_left → Chosen (some s) (some t) (some 1)
  lower : (s t : Side) → s.is_left ≢ t.is_left → rank s ≤ rank t → Chosen (some s) (some t) (some 0)
  higher :
      (s t : Side) → s.is_left ≢ t.is_left → rank t ≤ rank s → Chosen (some s) (some t) (some 1)

-- which of the two lanes an index means
abbrev pub side_at : Option Side → Option Side → ℕ → Option Side
side_at b0 b1 zero = b0
side_at b0 b1 (suc i) = b1

-- the turn signal is to be that of the chosen side
abbrev Signals : Option Side → Option Side → Option ℕ → Type 0
Signals b0 b1 none = Unit
Signals b0 b1 (some i) =
    (s : Side) × (side_at b0 b1 i ≡ some s) × (is_left_lane b0 b1 i ≡ s.is_left)

abbrev Correct : Option Side → Option Side → Option ℕ → Type 0
Correct b0 b1 o = Chosen b0 b1 o × Signals b0 b1 o

abbrev side : Bool → Bool → Side
side l f = record { is_left = l; forward = f }

choose_one :
    (l f : Bool)
    → Correct (some (side l f)) none (choose_lane (some (side l f)) none)
      × Correct none (some (side l f)) (choose_lane none (some (side l f)))
unfolding choose_lane
choose_one true true = ((only_lower _, (_, refl, refl)), (only_higher _, (_, refl, refl)))
choose_one true false = ((only_lower _, (_, refl, refl)), (only_higher _, (_, refl, refl)))
choose_one false true = ((only_lower _, (_, refl, refl)), (only_higher _, (_, refl, refl)))
choose_one false false = ((only_lower _, (_, refl, refl)), (only_higher _, (_, refl, refl)))

choose_two :
    (l f m g : Bool)
    → Correct (some (side l f)) (some (side m g)) (choose_lane (some (side l f)) (some (side m g)))
unfolding choose_lane
choose_two true true true true = (same_side _ _ refl, (_, refl, refl))
choose_two true true true false = (same_side _ _ refl, (_, refl, refl))
choose_two true false true true = (same_side _ _ refl, (_, refl, refl))
choose_two true false true false = (same_side _ _ refl, (_, refl, refl))
choose_two true true false true =
    (higher _ _ (λ e. false≢true (sym e)) (omega arith), (_, refl, refl))
choose_two true true false false =
    (lower _ _ (λ e. false≢true (sym e)) (omega arith), (_, refl, refl))
choose_two true false false true =
    (higher _ _ (λ e. false≢true (sym e)) (omega arith), (_, refl, refl))
choose_two true false false false =
    (higher _ _ (λ e. false≢true (sym e)) (omega arith), (_, refl, refl))
choose_two false true true true = (lower _ _ false≢true (omega arith), (_, refl, refl))
choose_two false true true false = (lower _ _ false≢true (omega arith), (_, refl, refl))
choose_two false false true true = (higher _ _ false≢true (omega arith), (_, refl, refl))
choose_two false false true false = (lower _ _ false≢true (omega arith), (_, refl, refl))
choose_two false true false true = (same_side _ _ refl, (_, refl, refl))
choose_two false true false false = (same_side _ _ refl, (_, refl, refl))
choose_two false false false true = (same_side _ _ refl, (_, refl, refl))
choose_two false false false false = (same_side _ _ refl, (_, refl, refl))

choose_lane-Correct : (b0 b1 : Option Side) → Correct b0 b1 (choose_lane b0 b1)
unfolding choose_lane
choose_lane-Correct none none = (neither, tt)
choose_lane-Correct (some s) none = (choose_one s.is_left s.forward).0
choose_lane-Correct none (some t) = (choose_one t.is_left t.forward).1
choose_lane-Correct (some s) (some t) = choose_two s.is_left s.forward t.is_left t.forward

module _ {F : Type 0} ⦃fl : Floats F⦄ where
  -- what the call selects, returns and changes, with the sides on which the lanes were seen
  pub record Passed (b0 b1 : Option Side) (n : Nav F (Lanes F)) (r : Nav F (Lanes F) × Bool)
      : Type 0 where
    pub chosen : Chosen b0 b1 r.0.rest.passing_lane
    pub fails : r.0.rest.passing_lane ≡ none → r.1 ≡ false
    pub succeeds : (i : ℕ) → r.0.rest.passing_lane ≡ some i → r.1 ≡ true
    pub signals :
        (i : ℕ)
        → r.0.rest.passing_lane ≡ some i
        → (s : Side) × (side_at b0 b1 i ≡ some s) × (r.0.course.passing_left ≡ s.is_left)
    pub plan_kept : r.0.rest.plan ≡ n.rest.plan

  take_lane-Passed :
      (r0 r1 : List (Poly F) × Option Side) (n : Nav F (Lanes F)) (o : Option ℕ)
      → Correct r0.1 r1.1 o
      → Passed r0.1 r1.1 n (take_lane r0 r1 n o, elim o [ none ↦ false | some i ↦ true ])
  take_lane-Passed r0 r1 n none c = record {
    chosen = c.0;
    fails = λ _. refl;
    succeeds = λ i h. cc;
    signals = λ i h. absurd (cc);
    plan_kept = refl;
  }
  take_lane-Passed r0 r1 n (some i) c = record {
    chosen = c.0;
    fails = λ h. cc;
    succeeds = λ j h. refl;
    signals = λ j h.
        subst
          (λ k.
            (s : Side) × (side_at r0.1 r1.1 k ≡ some s) × (is_left_lane r0.1 r1.1 i ≡ s.is_left))
          (some-injective _ _ h) c.1;
    plan_kept = refl;
  }

  pass_in-Passed :
      (r0 r1 : List (Poly F) × Option Side) (n : Nav F (Lanes F))
      → Passed r0.1 r1.1 n (pass_in r0 r1 n)
  unfolding pass_in
  pass_in-Passed r0 r1 n =
      take_lane-Passed r0 r1 n (choose_lane r0.1 r1.1) (choose_lane-Correct r0.1 r1.1)

  -- The lower and the higher lane beside that of the next way-point, where they are, and what is selected of them.
  pub record Selected (n : Nav F (Lanes F)) (cur : Poly F) (r : Nav F (Lanes F) × Bool)
      : Type 0 where
    pub low : Option Side
    pub high : Option Side
    pub lower_lane_seen :
        Beside n.rest.polygons
          (waypt 1 n.order).mapxy
          cur
          (lower_lane (pos 0) (waypt_id 1 n.order))
          r.0.rest.adj_polys.0
          low
    pub higher_lane_seen :
        Beside n.rest.polygons
          (waypt 1 n.order).mapxy
          cur
          (higher_lane (pos 0) (waypt_id 1 n.order))
          r.0.rest.adj_polys.1
          high
    pub passed : Passed low high n r

  -- With a polygon of the plan near the vehicle, find_passing_lane looks at the two lanes whose numbers are next to
  -- that of the next way-point. A lane is there if its number is not 0 and the map has a polygon of it. The one of these
  -- closest to the way-point is to the left if its midpoint has a positive bearing from the polygon of the
  -- vehicle, to the right otherwise, and the lane goes forward if the two headings differ by less than half pi; its
  -- polygons are collected in the order of the map then, and else in the opposite order. A lane is selected if
  -- one is there. If one is to the left and one to the right, a forward lane goes before one against the traffic, and then
  -- the right one before the left; if both are on the same side it is the higher one. The call succeeds exactly if a lane is
  -- selected, it keeps the plan, and `passing_left` says on which side that lane is.
  pub find_passing_lane-Passed :
      (n : Nav F (Lanes F)) (cur : Poly F)
      → at_index n.rest.plan (get_closest_poly n.rest.plan n.rest.estimate.map) ≡ some cur
      → Selected n cur (find_passing_lane n)
  unfolding find_passing_lane pass_in
  find_passing_lane-Passed n cur e =
      let at = (waypt 1 n.order).mapxy in
      let below = lower_lane (pos 0) (waypt_id 1 n.order) in
      let above = higher_lane (pos 0) (waypt_id 1 n.order) in
      let r0 = look_beside n.rest.polygons at cur below in
      let r1 = look_beside n.rest.polygons at cur above in
      rw (e, find_passing_lane)
        (record {
          low = r0.1;
          high = r1.1;
          lower_lane_seen = look_beside-Beside n.rest.polygons at cur below;
          higher_lane_seen = look_beside-Beside n.rest.polygons at cur above;
          passed = pass_in-Passed r0 r1 n;
        })
