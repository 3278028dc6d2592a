-- ===== src/Lanes/Geometry.antt =====
-- Poses, bearings and distances in the plane: art_map/include/art_map/coordinates.h and
-- euclidean_distance.h.
use utexas_art_ros_pkg.Base.{ℕ, zero, suc, Bool, ◌&&◌, if◌then◌else◌, pos}
use utexas_art_ros_pkg.Numeric.{Floats}
use utexas_art_ros_pkg.RoadMap.WayPoint.{MapXy, WayPointNode, distance_to}

pub record MapPose (F : Type 0) : Type 0 where
  pub map : MapXy F
  pub yaw : F

pub record Polar (F : Type 0) : Type 0 where
  pub heading : F
  pub range : F

-- The rounds of a loop of `normalize`. Every heading that the program normalizes is a sum or
-- difference of headings in (-M_PI, M_PI], which takes one round.
abbrev pub turns : ℕ
turns = 100

module _ {F : Type 0} ⦃fl : Floats F⦄ where
  -- MapXY(), operator+ and operator-
  abbrev pub origin : MapXy F
  origin = record { x = fl.of_int (pos 0); y = fl.of_int (pos 0) }

  abbrev pub xy_add : MapXy F → MapXy F → MapXy F
  xy_add a b = record { x = fl.fadd a.x b.x; y = fl.fadd a.y b.y }

  abbrev pub xy_sub : MapXy F → MapXy F → MapXy F
  xy_sub a b = record { x = fl.fsub a.x b.x; y = fl.fsub a.y b.y }

  -- the two loops of `normalize`
  unfoldable pub turn_down : ℕ → F → F
  turn_down zero heading = heading
  turn_down (suc n) heading =
      let rest = turn_down n (fl.to_float (fl.dsub heading fl.two_pi)) in
      if fl.lt fl.pi heading then rest else heading

  unfoldable pub turn_up : ℕ → F → F
  turn_up zero heading = heading
  turn_up (suc n) heading =
      let rest = turn_up n (fl.to_float (fl.dadd heading fl.two_pi)) in
      if fl.le heading (fl.fneg fl.pi) then rest else heading

  unfoldable pub normalize : F → F
  unfolding turn_down turn_up
  normalize heading = turn_up turns (turn_down turns heading)

  -- Coordinates::bearing(MapXY, MapXY)
  unfoldable pub bearing : MapXy F → MapXy F → F
  bearing from_point to_point =
      let offset = xy_sub to_point from_point in fl.atan2f offset.y offset.x

  -- Coordinates::bearing(MapPose, MapXY)
  unfoldable pub pose_bearing : MapPose F → MapXy F → F
  unfolding normalize bearing
  pose_bearing from_pose to_point =
      normalize (fl.fsub (bearing from_pose.map to_point) from_pose.yaw)

  -- The origin of MapXY_to_Polar is an odometry message, here its pose.
  unfoldable pub map_xy_to_polar : MapXy F → MapPose F → Polar F
  unfolding pose_bearing
  map_xy_to_polar point pose =
      let diff = xy_sub point pose.map in
      record {
        heading = pose_bearing pose point;
        range = fl.fsqrt (fl.fadd (fl.fmul diff.x diff.x) (fl.fmul diff.y diff.y));
      }

  unfoldable pub polar_to_map_xy : Polar F → MapPose F → MapXy F
  polar_to_map_xy polar pose =
      let map_heading = fl.fadd pose.yaw polar.heading in
      record {
        x = fl.fadd pose.map.x (fl.fmul (fl.cosf map_heading) polar.range);
        y = fl.fadd pose.map.y (fl.fmul (fl.sinf map_heading) polar.range);
      }

  unfoldable pub midpoint : MapXy F → MapXy F → MapXy F
  midpoint p1 p2 =
      let two = fl.of_int (pos 2) in
      record {
        x = fl.to_float (fl.ddiv (fl.fadd p1.x p2.x) two);
        y = fl.to_float (fl.ddiv (fl.fadd p1.y p2.y) two);
      }

  -- Euclidean::DistanceTo(MapPose, MapPose)
  unfoldable pub pose_distance : MapPose F → MapPose F → F
  unfolding distance_to
  pose_distance p1 p2 = distance_to p1.map p2.map

  -- Euclidean::DistanceToWaypt(MapPose, WayPointNode)
  unfoldable pub waypt_distance : MapPose F → WayPointNode F → F
  unfolding distance_to
  waypt_distance pose waypt = distance_to pose.map waypt.map

  -- Euclidean::point_in_line_segment
  unfoldable pub point_in_line_segment : MapXy F → MapXy F → MapXy F → Bool
  unfolding distance_to
  point_in_line_segment point lp1 lp2 =
      fl.lt
        (fl.fabs
          (fl.fsub (fl.fadd (distance_to lp1 point) (distance_to point lp2)) (distance_to lp1 lp2)))
        fl.distance_epsilon

  -- Euclidean::DistanceFromLine, the distances to the segment and to the line
  unfoldable pub distance_from_line : MapXy F → MapXy F → MapXy F → F × F
  distance_from_line c a b =
      let cx = fl.fsub c.x a.x in
      let cy = fl.fsub c.y a.y in
      let bx = fl.fsub b.x a.x in
      let by = fl.fsub b.y a.y in
      let denominator = fl.fadd (fl.fmul bx bx) (fl.fmul by by) in
      let r = fl.fdiv (fl.fadd (fl.fmul cx bx) (fl.fmul cy by)) denominator in
      let ay_cy = fl.fsub a.y c.y in
      let ax_cx = fl.fsub a.x c.x in
      let s = fl.fdiv (fl.fsub (fl.fmul ay_cy bx) (fl.fmul ax_cx by)) denominator in
      let line = fl.fmul (fl.fabs s) (fl.fsqrt denominator) in
      let dist1 = fl.fadd (fl.fmul cx cx) (fl.fmul cy cy) in
      let dx = fl.fsub c.x b.x in
      let dy = fl.fsub c.y b.y in
      let dist2 = fl.fadd (fl.fmul dx dx) (fl.fmul dy dy) in
      (
        if fl.le (fl.of_int (pos 0)) r && fl.le r (fl.of_int (pos 1))
            then line
            else if fl.lt dist1 dist2
            then fl.fsqrt dist1
            else fl.fsqrt dist2,
        line,
      )

  -- PolyOps::shortestDistToLineSegment
  unfoldable pub shortest_dist_to_line_segment : MapXy F → MapXy F → MapXy F → F
  unfolding distance_from_line
  shortest_dist_to_line_segment c a b = (distance_from_line c a b).0

  -- PolyOps::GetClosestPointToLine
  unfoldable pub get_closest_point_to_line : MapXy F → MapXy F → MapXy F → Bool → MapXy F
  get_closest_point_to_line a b p segment_clamp =
      let zero_f = fl.of_int (pos 0) in
      let one = fl.of_int (pos 1) in
      let ap = xy_sub p a in
      let ab = xy_sub b a in
      let ab2 = fl.fadd (fl.fmul ab.x ab.x) (fl.fmul ab.y ab.y) in
      let ap_ab = fl.fadd (fl.fmul ap.x ab.x) (fl.fmul ap.y ab.y) in
      let t = fl.fdiv ap_ab ab2 in
      let clamped = if fl.lt t zero_f then zero_f else if fl.lt one t then one else t in
      let scale = if segment_clamp then clamped else t in
      xy_add a (record { x = fl.fmul ab.x scale; y = fl.fmul ab.y scale })
