-- ===== src/Lanes/Poly.antt =====
-- Class poly of art_map/include/art_map/PolyOps.h, the quadrilaterals that make up a lane, and the
-- operations of class PolyOps on one of them.
use utexas_art_ros_pkg.Base.{
  Bool, true, false, ◌&&◌, ◌||◌, not, if◌then◌else◌, ℤ, pos, negsuc, eqb_ℤ,
}
use utexas_art_ros_pkg.Numeric.{Floats, equal, lte, gte}
use utexas_art_ros_pkg.RoadMap.Element.{ElementId, id_eq, same_lane}
use utexas_art_ros_pkg.RoadMap.WayPoint.{MapXy, WayPointNode, LaneMarking, distance_to}
use utexas_art_ros_pkg.Lanes.Geometry.{
  MapPose, normalize, bearing, pose_bearing, midpoint, shortest_dist_to_line_segment,
}

-- `p1` to `p4` are the vertices: bottom left, top left, top right, bottom right.
pub record Poly (F : Type 0) : Type 0 where
  pub p1 : MapXy F
  pub p2 : MapXy F
  pub p3 : MapXy F
  pub p4 : MapXy F
  pub heading : F
  pub midpoint : MapXy F
  pub length : F
  pub poly_id : ℤ
  pub is_stop : Bool
  pub is_transition : Bool
  pub contains_way : Bool
  pub start_way : ElementId
  pub end_way : ElementId
  pub left_boundary : LaneMarking
  pub right_boundary : LaneMarking

-- the parity of the edges crossed
abbrev pub toggle : Bool → Bool → Bool
toggle crossed odd = if crossed then not odd else odd

module _ {F : Type 0} where
  unfoldable pub lane_poly : Poly F → ElementId → Bool
  lane_poly p id =
      eqb_ℤ p.start_way.seg id.seg
      && eqb_ℤ p.start_way.lane id.lane
      && eqb_ℤ p.end_way.seg id.seg
      && eqb_ℤ p.end_way.lane id.lane
      && not p.is_transition

  unfoldable pub match_waypt_poly : Poly F → ElementId → ElementId → Bool
  match_waypt_poly p way0 way1 = id_eq p.start_way way0 && id_eq p.end_way way1

  unfoldable pub match_transition_poly : Poly F → WayPointNode F → WayPointNode F → Bool
  unfolding same_lane
  match_transition_poly p way0 way1 =
      same_lane p.start_way way0.id && same_lane p.end_way way1.id && p.is_transition

  unfoldable pub is_valid_poly : Poly F → Bool
  is_valid_poly p = if eqb_ℤ p.poly_id (negsuc 0) then false else true

module _ {F : Type 0} ⦃fl : Floats F⦄ where
  unfoldable pub point_in_hull : MapXy F → Poly F → Bool
  unfolding lte gte
  point_in_hull pt p =
      let minx = fl.fmin (fl.fmin (fl.fmin p.p1.x p.p2.x) p.p3.x) p.p4.x in
      let miny = fl.fmin (fl.fmin (fl.fmin p.p1.y p.p2.y) p.p3.y) p.p4.y in
      let maxx = fl.fmax (fl.fmax (fl.fmax p.p1.x p.p2.x) p.p3.x) p.p4.x in
      let maxy = fl.fmax (fl.fmax (fl.fmax p.p1.y p.p2.y) p.p3.y) p.p4.y in
      gte pt.x minx && lte pt.x maxx && gte pt.y miny && lte pt.y maxy

  unfoldable pub point_on_segment : MapXy F → MapXy F → MapXy F → Bool
  unfolding lte gte equal
  point_on_segment pt p1 p2 =
      let nought = fl.of_int (pos 0) in
      let diffy = fl.fsub p2.y p1.y in
      let diffx = fl.fsub p2.x p1.x in
      let diff2y = fl.fsub pt.y p1.y in
      let diff2x = fl.fsub pt.x p1.x in
      let below = fl.lt diffy nought in
      if gte pt.x (fl.fmin p1.x p2.x)
        && lte pt.x (fl.fmax p1.x p2.x)
        && gte pt.y (fl.fmin p1.y p2.y)
        && lte pt.y (fl.fmax p1.y p2.y)
      then if equal diffx nought
        then equal diff2x nought && (if fl.lt diff2y nought then below else not below)
        else if equal diff2x nought
        then false
        else equal (fl.fdiv diffy diffx) (fl.fdiv diff2y diff2x)
      else false

  unfoldable pub point_on_edges : MapXy F → Poly F → Bool
  unfolding point_on_segment
  point_on_edges pt p =
      point_on_segment pt p.p1 p.p2
      || point_on_segment pt p.p3 p.p2
      || point_on_segment pt p.p4 p.p3
      || point_on_segment pt p.p1 p.p4

  -- whether the ray to the left from a point crosses an edge
  unfoldable pub crosses : MapXy F → MapXy F → MapXy F → Bool
  crosses pt a b =
      (fl.lt a.y pt.y && fl.le pt.y b.y || fl.lt b.y pt.y && fl.le pt.y a.y)
      && fl.lt
          (fl.fadd a.x (fl.fmul (fl.fdiv (fl.fsub pt.y a.y) (fl.fsub b.y a.y)) (fl.fsub b.x a.x)))
          pt.x

  unfoldable pub point_in_poly : MapXy F → Poly F → Bool
  unfolding point_in_hull crosses point_on_edges
  point_in_poly pt p =
      let odd = toggle (crosses pt p.p4 p.p1) (
        toggle (crosses pt p.p3 p.p4)
          (toggle (crosses pt p.p2 p.p3) (toggle (crosses pt p.p1 p.p2) false))) in
      if not (point_in_hull pt p) then false else if odd then true else point_on_edges pt p

  abbrev pub along : F → MapXy F → MapXy F → MapXy F
  along t a b = record {
    x = fl.fadd a.x (fl.fmul (fl.fsub b.x a.x) t);
    y = fl.fadd a.y (fl.fmul (fl.fsub b.y a.y) t);
  }

  -- a quadrilateral of part of the width, for pointInPoly_ratio
  unfoldable pub narrowed : F → Poly F → Poly F
  narrowed ratio p =
      let one = fl.of_int (pos 1) in
      let diff = fl.fdiv (fl.fsub one ratio) (fl.of_int (pos 2)) in
      let rest = fl.fsub one diff in
      record p {
        p1 = along diff p.p1 p.p4;
        p4 = along rest p.p1 p.p4;
        p2 = along diff p.p2 p.p3;
        p3 = along rest p.p2 p.p3;
      }

  unfoldable pub point_in_poly_ratio : MapXy F → Poly F → F → Bool
  unfolding narrowed point_in_poly
  point_in_poly_ratio pt p ratio = point_in_poly pt (narrowed ratio p)

  -- one comparison of getShortestDistToPoly
  abbrev pub lesser : F → F → F
  lesser dist d = if fl.lt d dist then d else dist

  unfoldable pub get_shortest_dist_to_poly : MapXy F → Poly F → F
  unfolding point_in_poly shortest_dist_to_line_segment
  get_shortest_dist_to_poly pt p =
      let dist1 = shortest_dist_to_line_segment pt p.p1 p.p2 in
      let dist2 = lesser dist1 (shortest_dist_to_line_segment pt p.p2 p.p3) in
      let dist3 = lesser dist2 (shortest_dist_to_line_segment pt p.p3 p.p4) in
      let dist4 = lesser dist3 (shortest_dist_to_line_segment pt p.p4 p.p1) in
      if point_in_poly pt p then fl.of_int (pos 0) else dist4

  unfoldable pub point_near_poly : MapXy F → Poly F → F → Bool
  unfolding get_shortest_dist_to_poly
  point_near_poly pt p epsilon = fl.lt (get_shortest_dist_to_poly pt p) epsilon

  unfoldable pub get_poly_edge_midpoint : Poly F → MapXy F
  get_poly_edge_midpoint p =
      let two = fl.of_int (pos 2) in
      record { x = fl.fdiv (fl.fadd p.p2.x p.p3.x) two; y = fl.fdiv (fl.fadd p.p2.y p.p3.y) two }

  unfoldable pub centerpoint : Poly F → MapXy F
  unfolding midpoint
  centerpoint p = midpoint (midpoint p.p1 p.p3) (midpoint p.p2 p.p4)

  unfoldable pub get_length : Poly F → F
  unfolding midpoint distance_to
  get_length p =
      fl.fadd (distance_to (midpoint p.p1 p.p4) p.midpoint)
        (distance_to (midpoint p.p2 p.p3) p.midpoint)

  unfoldable pub avg_length_of_poly_sides : Poly F → F
  unfolding distance_to
  avg_length_of_poly_sides p =
      fl.fdiv
        (fl.fadd
          (fl.fadd (fl.fadd (distance_to p.p1 p.p2) (distance_to p.p2 p.p3))
            (distance_to p.p3 p.p4))
          (distance_to p.p4 p.p1))
        (fl.of_int (pos 4))

  unfoldable pub poly_heading : Poly F → F
  unfolding normalize bearing
  poly_heading p =
      let left_heading = bearing p.p1 p.p2 in
      let right_heading = bearing p.p4 p.p3 in
      normalize (
        fl.fadd right_heading
          (fl.fdiv (normalize (fl.fsub left_heading right_heading)) (fl.of_int (pos 2))))

  unfoldable pub left_of_poly : Poly F → Poly F → Bool
  unfolding pose_bearing
  left_of_poly this_poly cur_poly =
      let cur_pose : MapPose F = record { map = cur_poly.midpoint; yaw = cur_poly.heading } in
      fl.lt (fl.of_int (pos 0)) (pose_bearing cur_pose this_poly.midpoint)

  unfoldable pub same_direction : Poly F → Poly F → F → Bool
  unfolding normalize
  same_direction p1 p2 angle = fl.lt (fl.fabs (normalize (fl.fsub p1.heading p2.heading))) angle
