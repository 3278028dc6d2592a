-- ===== src/Lanes/Adjacent.antt =====
-- The lanes beside a lane: getLaneDir, getReverseLane and getStartingPoly of
-- art_map/src/lib/PolyOps.cc.
use utexas_art_ros_pkg.Base.{
  ℕ, zero, suc, Bool, true, false, ◌&&◌, ◌||◌, List, [], ◌∷◌, ◌++◌, Option, none, some, and_then,
  if◌then◌else◌, get_elem?, ℤ, pos, negsuc, ltb_ℤ, eqb_ℤ,
}
use utexas_art_ros_pkg.Numeric.{Floats}
use utexas_art_ros_pkg.RoadMap.Element.{ElementId, null_id, increment, decrement}
use utexas_art_ros_pkg.Lanes.Geometry.{MapPose, normalize, pose_bearing}
use utexas_art_ros_pkg.Lanes.Poly.{Poly}
use utexas_art_ros_pkg.Lanes.Closest.{get_closest_poly, get_containing_poly, get_poly_index}
use utexas_art_ros_pkg.Lanes.Select.{add_lane_polys}

-- the identifiers of the adjacent lanes, with a way-point number
abbrev pub lower_lane : ℤ → ElementId → ElementId
lower_lane pt id = record { seg = id.seg; lane = decrement id.lane; pt = pt }

abbrev pub higher_lane : ℤ → ElementId → ElementId
higher_lane pt id = record { seg = id.seg; lane = increment id.lane; pt = pt }

abbrev pub adjacent_lanes : ElementId → List ElementId
adjacent_lanes id = lower_lane (pos 0) id ∷ higher_lane (pos 0) id ∷ []

-- whether a list of lane numbers has one
pub has_lane : ℤ → List ℤ → Bool
has_lane lane [] = false
has_lane lane (l ∷ ls) = let rest = has_lane lane ls in if eqb_ℤ l lane then true else rest

module _ {F : Type 0} where
  -- a list's closest polygon, by its index
  abbrev pub at_index : List (Poly F) → Option ℕ → Option (Poly F)
  at_index polys o = and_then o λ i. get_elem? polys i

  -- The lanes of a segment, each once, in the order in which the polygons have them.
  unfoldable pub lanes_of : ℤ → List (Poly F) → List ℤ → List ℤ
  unfolding has_lane
  lanes_of segment [] lanes = lanes
  lanes_of segment (p ∷ ps) lanes =
      let lane = p.start_way.lane in
      lanes_of segment ps (
        if eqb_ℤ p.start_way.seg segment
        then if has_lane lane lanes then lanes else lanes ++ (lane ∷ [])
        else lanes)

module _ {F : Type 0} ⦃fl : Floats F⦄ where
  -- the heading that the side is relative to
  abbrev pub reference_yaw : ℤ → MapPose F → Poly F → F
  reference_yaw relative pose cur =
      if eqb_ℤ relative (pos 0)
      then cur.heading
      else if eqb_ℤ relative (pos 1)
      then pose.yaw
      else fl.of_int (pos 0)

  -- whether a bearing is to the left or right, for a direction of +1 or -1
  abbrev pub toward : ℤ → F → Bool
  toward direction theta =
      fl.lt (fl.of_int (pos 0)) theta && eqb_ℤ direction (pos 1)
      || fl.lt theta (fl.of_int (pos 0)) && eqb_ℤ direction (negsuc 0)

  -- The loop over the adjacent lanes. A lane with no polygons has no closest one.
  unfoldable pub lane_toward : List (Poly F) → ℤ → F → Poly F → List ElementId → List (Poly F)
  unfolding add_lane_polys get_closest_poly pose_bearing
  lane_toward polys direction yaw cur [] = []
  lane_toward polys direction yaw cur (lane ∷ lanes) =
      let rest = lane_toward polys direction yaw cur lanes in
      let adjacent = add_lane_polys polys [] lane in
      let poly_pose : MapPose F = record { map = cur.midpoint; yaw = yaw } in
      if ltb_ℤ (pos 0) lane.lane
      then elim (at_index adjacent (get_closest_poly adjacent cur.midpoint)) [
        | none ↦ rest
        | some my_adj ↦
            if toward direction (pose_bearing poly_pose my_adj.midpoint) then adjacent else rest
      ]
      else rest

  unfoldable pub get_lane_dir : List (Poly F) → ℤ → ℤ → MapPose F → List (Poly F)
  unfolding get_closest_poly add_lane_polys lane_toward
  get_lane_dir polys relative direction pose =
      elim (at_index polys (get_closest_poly polys pose.map)) [
        | none ↦ []
        | some cur ↦
            if eqb_ℤ direction (pos 0)
            then add_lane_polys polys [] cur.start_way
            else lane_toward polys direction (reference_yaw relative pose cur) cur
                (adjacent_lanes cur.start_way)
      ]

  -- The loop of getReverseLane, which has no bound of its own; `none` is a run that is not over
  -- after all rounds of the fuel.
  unfoldable pub reverse_lane_from : ℕ → List (Poly F) → F → MapPose F → Option ElementId
  unfolding get_lane_dir get_closest_poly normalize
  reverse_lane_from zero polys base_heading my_pose = none
  reverse_lane_from (suc fuel) polys base_heading my_pose =
      let to_polys = get_lane_dir polys (pos 0) (pos 1) my_pose in
      elim (at_index to_polys (get_closest_poly to_polys my_pose.map)) [
        | none ↦ some null_id
        | some p ↦
            let rest =
              reverse_lane_from fuel polys base_heading (record my_pose { map = p.midpoint }) in
            if fl.lt fl.half_pi (fl.fabs (normalize (fl.fsub p.heading base_heading)))
            then some p.end_way
            else rest
      ]

  unfoldable pub get_reverse_lane : ℕ → List (Poly F) → MapPose F → Option ElementId
  unfolding get_closest_poly reverse_lane_from
  get_reverse_lane fuel polys pose = elim (at_index polys (get_closest_poly polys pose.map)) [
    | none ↦ some null_id
    | some base ↦ reverse_lane_from fuel polys base.heading pose
  ]

  -- the angle between a polygon and the vehicle
  abbrev pub heading_error : MapPose F → Poly F → F
  heading_error pose p = fl.fabs (normalize (fl.fsub p.heading pose.yaw))

  -- The loop of getStartingPoly over the lanes: the polygon found so far, and its angle.
  unfoldable pub best_lane :
      List (Poly F) → MapPose F → ℤ → List ℤ → Option (Poly F) → F → Option (Poly F)
  unfolding add_lane_polys get_closest_poly normalize
  best_lane polys pose segment [] found mindist = found
  best_lane polys pose segment (lane ∷ lanes) found mindist =
      let lane_polys =
        add_lane_polys polys [] (record { seg = segment; lane = lane; pt = pos 0 }) in
      elim (at_index lane_polys (get_closest_poly lane_polys pose.map)) [
        | none ↦ best_lane polys pose segment lanes found mindist
        | some p ↦
            let nearer = fl.lt (heading_error pose p) mindist in
            best_lane polys pose segment lanes (if nearer then some p else found)
              (if nearer then heading_error pose p else mindist)
      ]

  unfoldable pub get_starting_poly : MapPose F → List (Poly F) → F → Option ℕ
  unfolding get_containing_poly get_closest_poly get_poly_index best_lane lanes_of normalize
  get_starting_poly pose polys min_heading =
      let suitable = λ (p : Poly F). fl.lt (heading_error pose p) min_heading in
      let search = λ (p : Poly F).
        and_then
          (best_lane polys pose p.start_way.seg (lanes_of p.start_way.seg polys []) none fl.flt_max)
          λ best. get_poly_index polys best in
      let closest = get_closest_poly polys pose.map in
      let from_closest =
        and_then (at_index polys closest) λ p. if suitable p then closest else search p in
      let containing = get_containing_poly polys pose.map in
      elim (at_index polys containing) [
        | none ↦ from_closest
        | some p ↦ if suitable p then containing else from_closest
      ]
