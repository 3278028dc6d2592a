-- ===== src/Navigator/Course/Plan/Passing.antt =====
-- The lane in which an obstacle is passed: find_passing_lane and switch_to_passing_lane of
-- art_nav/src/navigator/course.cc.
use utexas_art_ros_pkg.Base.{
  ℕ, zero, suc, ◌==◌, Bool, true, false, not, List, [], ◌∷◌, Option, none, some, if◌then◌else◌,
  length, pos, eqb_ℤ,
}
use utexas_art_ros_pkg.Numeric.{Floats}
use utexas_art_ros_pkg.RoadMap.Element.{ElementId}
use utexas_art_ros_pkg.RoadMap.WayPoint.{MapXy}
use utexas_art_ros_pkg.Lanes.Geometry.{midpoint, get_closest_point_to_line}
use utexas_art_ros_pkg.Lanes.Poly.{Poly, left_of_poly, same_direction}
use utexas_art_ros_pkg.Lanes.Closest.{get_closest_poly}
use utexas_art_ros_pkg.Lanes.Select.{add_lane_polys, add_reverse_lane_polys, collect_polys}
use utexas_art_ros_pkg.Lanes.Adjacent.{at_index, lower_lane, higher_lane}
use utexas_art_ros_pkg.Navigator.State.{Nav}
use utexas_art_ros_pkg.Navigator.Course.{waypt, waypt_id}
use utexas_art_ros_pkg.Navigator.Course.Plan.{Lanes, find_aim_polygon}

-- Where an adjacent lane was found: whether it is left of the current one, and whether it goes
-- forward (`adj_forw`).
pub record Side : Type 0 where
  pub is_left : Bool
  pub forward : Bool

abbrev pub on_side : Bool → Side → Bool
on_side true s = s.is_left
on_side false s = not s.is_left

-- one round's assignment to `left_lane` or `right_lane`
abbrev pub assign_lane : Bool → Option Side → ℕ → Option ℕ → Option ℕ
assign_lane left none i lane = lane
assign_lane left (some s) i lane = if on_side left s then some i else lane

-- `left_lane` for true, `right_lane` for false, after the loop over both lanes
abbrev pub lane_on : Bool → Option Side → Option Side → Option ℕ
lane_on left b0 b1 = assign_lane left b1 1 (assign_lane left b0 0 none)

-- passing_lane == left_lane
abbrev pub is_left_lane : Option Side → Option Side → ℕ → Bool
is_left_lane b0 b1 i = elim (lane_on true b0 b1) [ none ↦ false | some j ↦ i == j ]

-- whether the lane of an index goes forward
abbrev pub goes_forward : Option Side → Option Side → Option ℕ → Bool
goes_forward b0 b1 none = false
goes_forward b0 b1 (some zero) = elim b0 [ none ↦ false | some s ↦ s.forward ]
goes_forward b0 b1 (some (suc i)) = elim b1 [ none ↦ false | some s ↦ s.forward ]

-- The preferred lane: of the forward ones the right, then of the others.
unfoldable pub choose_lane : Option Side → Option Side → Option ℕ
choose_lane b0 b1 =
    let right_lane = lane_on false b0 b1 in
    let left_lane = lane_on true b0 b1 in
    if goes_forward b0 b1 right_lane
    then right_lane
    else if goes_forward b0 b1 left_lane
    then left_lane
    else elim right_lane [ none ↦ left_lane | some i ↦ some i ]

module _ {F : Type 0} ⦃fl : Floats F⦄ where
  -- One round of the loop over the adjacent lanes: the polygons of a lane, and where it is.
  unfoldable pub look_beside :
      List (Poly F) → MapXy F → Poly F → ElementId → List (Poly F) × Option Side
  unfolding add_lane_polys add_reverse_lane_polys get_closest_poly left_of_poly same_direction
  look_beside polygons pt cur lane =
      let adjacent = add_lane_polys polygons [] lane in
      if eqb_ℤ lane.lane (pos 0)
      then ([], none)
      else elim (at_index adjacent (get_closest_poly adjacent pt)) [
        | none ↦ (adjacent, none)
        | some this ↦
            let forward = same_direction cur this fl.half_pi in
            (
              if forward then adjacent else add_reverse_lane_polys polygons [] lane,
              some (record { is_left = left_of_poly this cur; forward = forward }),
            )
      ]

  -- the assignments of find_passing_lane, for the lane selected
  abbrev pub take_lane :
      List (Poly F) × Option Side
      → List (Poly F) × Option Side
      → Nav F (Lanes F)
      → Option ℕ
      → Nav F (Lanes F)
  take_lane (polys0, b0) (polys1, b1) n lane = record n {
    course = record (n.course) {
      passing_left = elim lane [ none ↦ n.course.passing_left | some i ↦ is_left_lane b0 b1 i ];
    };
    rest = record (n.rest) {
      adj_lane =
          (lower_lane (pos 0) (waypt_id 1 n.order), higher_lane (pos 0) (waypt_id 1 n.order));
      adj_polys = (polys0, polys1);
      passing_lane = lane;
    };
  }

  -- the end of find_passing_lane, once both lanes are looked at
  unfoldable pub pass_in :
      List (Poly F) × Option Side
      → List (Poly F) × Option Side
      → Nav F (Lanes F)
      → Nav F (Lanes F) × Bool
  unfolding choose_lane
  pass_in r0 r1 n =
      let lane = choose_lane r0.1 r1.1 in
      (take_lane r0 r1 n lane, elim lane [ none ↦ false | some i ↦ true ])

  unfoldable pub find_passing_lane : Nav F (Lanes F) → Nav F (Lanes F) × Bool
  unfolding get_closest_poly look_beside pass_in
  find_passing_lane n =
      let id = waypt_id 1 n.order in
      let s = n.rest in
      let pt = (waypt 1 n.order).mapxy in
      elim (at_index s.plan (get_closest_poly s.plan s.estimate.map)) [
        | none ↦ (
          record n { rest = record s { adj_lane = (lower_lane id.pt id, higher_lane id.pt id) } },
          false,
        )
        | some cur ↦
            pass_in (look_beside s.polygons pt cur (lower_lane (pos 0) id))
              (look_beside s.polygons pt cur (higher_lane (pos 0) id)) n
      ]

  -- The lane that was selected; an index of -1 is out of bounds of the array.
  abbrev pub passing_polys : Lanes F → List (Poly F)
  passing_polys s = elim s.passing_lane [
    | none ↦ []
    | some zero ↦ s.adj_polys.0
    | some (suc i) ↦ s.adj_polys.1
  ]

  unfoldable pub switch_to_passing_lane : Nav F (Lanes F) → Nav F (Lanes F) × Bool
  unfolding find_aim_polygon collect_polys midpoint get_closest_point_to_line
  switch_to_passing_lane n =
      let s = n.rest in
      let lane = passing_polys s in
      elim (find_aim_polygon n.order s lane) [
        | none ↦ (n, false)
        | some i ↦ elim (collect_polys lane i (length lane)) [
          | some (aim ∷ ps) ↦
              let start_point =
                get_closest_point_to_line (midpoint aim.p1 aim.p4) (midpoint aim.p2 aim.p3)
                  s.estimate.map true in
              (
                record n {
                  rest = record s {
                    passed_lane = s.plan;
                    plan = aim ∷ ps;
                    aim_poly = aim;
                    start_pass_location = record { map = start_point; yaw = aim.heading };
                  };
                },
                true,
              )
          | _ ↦ (record n { rest = record s { passed_lane = s.plan; plan = [] } }, false)
        ]
      ]
