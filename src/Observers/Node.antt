-- ===== src/Observers/Node.antt =====
-- The observers node: art_observers/src/nodes/lane_observations.cc. The transforms of tf and the clock
-- are parameters; markers are not modelled.
pub mod Occupied
pub mod Events
pub mod Ready
pub mod Runs
use utexas_art_ros_pkg.Base.{
  ℕ, Bool, true, false, List, [], ◌∷◌, ◌++◌, Option, none, some, and_then, if◌then◌else◌, ℤ, pos,
  eqb_ℤ,
}
use utexas_art_ros_pkg.Numeric.{Floats}
use utexas_art_ros_pkg.RoadMap.WayPoint.{MapXy}
use utexas_art_ros_pkg.Lanes.Geometry.{MapPose, origin}
use utexas_art_ros_pkg.Lanes.Message.{ArtQuadrilateral}
use utexas_art_ros_pkg.Observers.Quads.{
  quick_point_in_poly, quick_point_in_poly_ratio, far, inner_ratio,
}
use utexas_art_ros_pkg.Observers.Filters.{FilterBase}
use utexas_art_ros_pkg.Observers.Observer.{ObservationMsg, Observer, new_observer}
use utexas_art_ros_pkg.Observers.Nearest.{update_forward, update_backward}
use utexas_art_ros_pkg.Observers.Adjacent.{update_left, update_right}

-- The set of polygon identifiers and the vector of the polygons: added_quads_ and obs_quads_.
pub record Occupancy (F : Type 0) : Type 0 where
  pub added_quads : List ℤ
  pub obs_quads : List (ArtQuadrilateral F)

-- The node. `received` is whether the stamp of the local map is after time zero; `observations` is the
-- array that is published.
pub record LaneObservations (F M V : Type 0) : Type 0 where
  pub local_map : List (ArtQuadrilateral F)
  pub received : Bool
  pub pose : MapPose F
  pub occupancy : Occupancy F
  pub robot_polygon : ArtQuadrilateral F
  pub forward : Observer F M V
  pub backward : Observer F M V
  pub left : Observer F M V
  pub right : Observer F M V
  pub observations : List (ObservationMsg F)

-- What tf gives for a point cloud: the points and the place of the robot in the frame of the map. The
-- robot is `none` where an exception ends transformPointCloud before its place is known, and then
-- the points are those that the code has left in `obstacles_`.
pub record Transformed (F : Type 0) : Type 0 where
  pub points : List (MapXy F)
  pub robot : Option (MapXy F)

-- unordered_set<int>::count and insert
unfoldable pub has_quad : ℤ → List ℤ → Bool
has_quad id [] = false
has_quad id (x ∷ xs) = let rest = has_quad id xs in if eqb_ℤ x id then true else rest

module _ {F : Type 0} where
  -- the insertion into the set, and the push if it was new
  unfoldable pub add_quad : ArtQuadrilateral F → Occupancy F → Occupancy F
  unfolding has_quad
  add_quad q c =
      if has_quad q.poly_id c.added_quads
      then c
      else record { added_quads = q.poly_id ∷ c.added_quads; obs_quads = c.obs_quads ++ (q ∷ []) }

module _ {F : Type 0} ⦃fl : Floats F⦄ where
  -- The loop of isPointInAPolygon over the local map, with `inside` so far. It has no break, and
  -- returns the test of the last polygon near the point.
  unfoldable pub point_in_polys :
      MapXy F → List (ArtQuadrilateral F) → Bool → Occupancy F → Bool × Occupancy F
  unfolding quick_point_in_poly_ratio add_quad
  point_in_polys pt [] inside c = (inside, c)
  point_in_polys pt (q ∷ qs) inside c =
      let now = quick_point_in_poly_ratio pt q inner_ratio in
      let skip = far pt q in
      point_in_polys pt qs (if skip then inside else now)
        (if skip then c else if now then add_quad q c else c)

  unfoldable pub is_point_in_a_polygon :
      MapXy F → List (ArtQuadrilateral F) → Occupancy F → Bool × Occupancy F
  unfolding point_in_polys
  is_point_in_a_polygon pt local_map c = point_in_polys pt local_map false c

  -- The loop of filterPointsInLocalMap.
  unfoldable pub filter_points :
      List (MapXy F) → List (ArtQuadrilateral F) → Occupancy F → Occupancy F
  unfolding is_point_in_a_polygon
  filter_points [] local_map c = c
  filter_points (pt ∷ pts) local_map c =
      filter_points pts local_map (is_point_in_a_polygon pt local_map c).1

  unfoldable pub filter_points_in_local_map :
      List (MapXy F) → List (ArtQuadrilateral F) → Occupancy F → Occupancy F
  unfolding filter_points
  filter_points_in_local_map pts local_map c =
      filter_points pts local_map (record c { added_quads = [] })

  -- The loop of calcRobotPolygon, which keeps the last polygon that contains the robot.
  unfoldable pub calc_robot_polygon :
      MapXy F → List (ArtQuadrilateral F) → ArtQuadrilateral F → ArtQuadrilateral F
  unfolding quick_point_in_poly
  calc_robot_polygon robot [] found = found
  calc_robot_polygon robot (q ∷ qs) found =
      calc_robot_polygon robot qs
        (if far robot q then found else if quick_point_in_poly robot q then q else found)

  module _ {M V : Type 0} (median : FilterBase F M) (mean : FilterBase F V)
      (blank : ArtQuadrilateral F) where
    -- the node after its constructor, which adds an empty observation for each observer
    unfoldable pub new_node : LaneObservations F M V
    unfolding new_observer
    new_node =
        let empty : ObservationMsg F = record {
          oid = pos 0;
          applicable = false;
          clear = false;
          time = fl.of_int (pos 0);
          distance = fl.of_int (pos 0);
          velocity = fl.of_int (pos 0);
          nobjects = pos 0;
        } in
        record {
          local_map = [];
          received = false;
          pose = record { map = origin; yaw = fl.of_int (pos 0) };
          occupancy = record { added_quads = []; obs_quads = [] };
          robot_polygon = blank;
          forward = new_observer median mean (pos 0);
          backward = new_observer median mean (pos 1);
          left = new_observer median mean (pos 2);
          right = new_observer median mean (pos 3);
          observations = empty ∷ empty ∷ empty ∷ empty ∷ [];
        }

    -- processLocalMap, with whether the stamp of the message is after time zero, and processPose
    unfoldable pub process_local_map :
        LaneObservations F M V → List (ArtQuadrilateral F) → Bool → LaneObservations F M V
    process_local_map n polygons stamped = record n { local_map = polygons; received = stamped }

    unfoldable pub process_pose : LaneObservations F M V → MapPose F → LaneObservations F M V
    process_pose n pose = record n { pose = pose }

    -- `clock` gives the time at each observer's update; `none` is an access out of bounds in one.
    unfoldable pub run_observers :
        (ℕ → F) → LaneObservations F M V → Option (LaneObservations F M V)
    unfolding update_forward update_backward update_left update_right
    run_observers clock n =
        let quads = n.occupancy.obs_quads in
        and_then (update_forward median mean n.forward n.local_map quads n.pose (clock 0))
          λ forward.
            and_then (update_backward median mean n.backward n.local_map quads n.pose (clock 1))
              λ backward.
                and_then (update_left median mean blank n.left n.local_map quads n.pose (clock 2))
                  λ left.
                    and_then
                      (update_right median mean blank n.right n.local_map quads n.pose (clock 3))
                      λ right. some (record n {
                        forward = forward;
                        backward = backward;
                        left = left;
                        right = right;
                        observations =
                            forward.observation ∷ backward.observation ∷ left.observation
                            ∷ right.observation ∷ [];
                      })

    -- The polygon of the robot, at the end of transformPointCloud.
    unfoldable pub locate_robot : LaneObservations F M V → Option (MapXy F) → LaneObservations F M V
    unfolding calc_robot_polygon
    locate_robot n none = n
    locate_robot n (some robot) = record n {
      robot_polygon = calc_robot_polygon robot n.local_map n.robot_polygon;
    }

    unfoldable pub process_obstacles :
        (ℕ → F) → LaneObservations F M V → Transformed F → Option (LaneObservations F M V)
    unfolding locate_robot filter_points_in_local_map run_observers
    process_obstacles clock n cloud =
        let cleared = record n { occupancy = record n.occupancy { obs_quads = [] } } in
        let located = locate_robot cleared cloud.robot in
        if n.received
        then run_observers clock (record located {
          occupancy = filter_points_in_local_map cloud.points n.local_map located.occupancy;
        })
        else some located
