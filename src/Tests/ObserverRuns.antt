-- ===== src/Tests/ObserverRuns.antt =====
-- Runs of the observers node of art_observers on a lane of three squares that leads east.
use utexas_art_ros_pkg.Base.{
  ℕ, zero, suc, ◌+◌, ◌≡◌, subst, refl, true, false, List, [], ◌∷◌, some, filter, ℤ, pos, length,
  take, ltb, if◌then◌else◌, ◌+ℤ◌, ◌-ℤ◌, arith,
}
use utexas_art_ros_pkg.Numeric.{whole, quotient, lte, gte, equal}
use utexas_art_ros_pkg.RoadMap.WayPoint.{undefined, MapXy}
use utexas_art_ros_pkg.Lanes.Poly.{crosses}
use utexas_art_ros_pkg.Lanes.Message.{ArtQuadrilateral}
use utexas_art_ros_pkg.Observers.Quads.{
  get_obstacles_in_lane, midpoint_of, quick_point_in_poly_ratio, odd_in_corners, in_corners,
}
use utexas_art_ros_pkg.Observers.Quads.InLane.{lies_in, get_obstacles_in_lane-filter}
use utexas_art_ros_pkg.Observers.Filters.{FilterBase, fed, Fills}
use utexas_art_ros_pkg.Observers.Nearest.{forward_distance}
use utexas_art_ros_pkg.Observers.Node.{
  LaneObservations, Occupancy, new_node, filter_points_in_local_map, filter_points,
  is_point_in_a_polygon, point_in_polys, add_quad, has_quad,
}
use utexas_art_ros_pkg.Observers.Node.Events.{
  Event, map_event, pose_event, cloud_event, updates, run,
}
use utexas_art_ros_pkg.Observers.Node.Runs.{ApplicableAfter, run-Applicable}
use utexas_art_ros_pkg.Observers.Node.Occupied.{Occupied, filter_points-Occupied}

abbrev at : ℕ → ℕ → MapXy ℤ
at x y = record { x = pos x; y = pos y }

-- a square of side 4, from its bottom left corner
abbrev quad : ℕ → ℕ → ArtQuadrilateral ℤ
quad n x = record {
  points = record {
    bottom_left = record { x = pos x; y = pos 0; z = pos 0 };
    top_left = record { x = pos x; y = pos 4; z = pos 0 };
    top_right = record { x = pos (4 + x); y = pos 4; z = pos 0 };
    bottom_right = record { x = pos (4 + x); y = pos 0; z = pos 0 };
  };
  midpoint = record { x = pos (2 + x); y = pos 2; z = pos 0 };
  heading = pos 0;
  length = pos 4;
  poly_id = pos n;
  is_stop = false;
  is_transition = false;
  contains_way = false;
  start_way = record { seg = 1; lane = 1; pt = 1 };
  end_way = record { seg = 1; lane = 1; pt = 2 };
  left_boundary = undefined;
  right_boundary = undefined;
}

abbrev lane : List (ArtQuadrilateral ℤ)
lane = quad 1 0 ∷ quad 2 4 ∷ quad 3 8 ∷ []

abbrev total : List ℤ → ℤ
total [] = pos 0
total (x ∷ xs) = x +ℤ total xs

-- the mean of the latest samples, as many as the capacity
abbrev latest : FilterBase ℤ (ℕ × List ℤ)
latest = record {
  reset = λ n. (n, []);
  update = λ s x. let xs = take s.0 (x ∷ s.1) in ((s.0, xs), quotient (total xs) (pos (length xs)));
  size = λ s. length s.1;
}

length-take :
    (n : ℕ) (xs : List ℤ) → length (take n xs) ≡ (if ltb (length xs) n then length xs else n)
length-take zero xs = ground arith
length-take (suc n) [] = ground arith
length-take (suc n) (x ∷ xs) = ground (arith, length-take n xs)

latest-holds :
    (n : ℕ) (xs ys : List ℤ)
    → length ys ≡ (if ltb (length ys) n then length ys else n)
    → length (fed latest (n, ys) xs).1
      ≡ (if ltb (length ys + length xs) n then length ys + length xs else n)
latest-holds n [] ys h = ground arith
latest-holds n (x ∷ xs) ys h =
    let next = latest-holds n xs (take n (x ∷ ys)) in
    let size = length-take n (x ∷ ys) in ground (arith, next, size)

zero_add : (n : ℕ) → 0 + n ≡ n
zero_add n = omega arith

latest-Fills : Fills latest
latest-Fills n xs =
    subst (λ (k : ℕ). length (fed latest (n, []) xs).1 ≡ (if ltb k n then k else n))
      (zero_add (length xs)) (latest-holds n xs [] (ground arith))

abbrev cloud : Event ℤ
cloud = cloud_event (λ i. pos i) (record { points = at 6 2 ∷ []; robot = some (at 2 2) })

abbrev messages : List (Event ℤ)
messages =
    cloud
    ∷ map_event lane true
    ∷ pose_event (record { map = at 2 2; yaw = pos 0 })
    ∷ cloud
    ∷ cloud
    ∷ cloud
    ∷ cloud
    ∷ cloud
    ∷ []

run-Applicable_example :
    (n : LaneObservations ℤ (ℕ × List ℤ) (ℕ × List ℤ)) × (run latest latest
        (quad 0 0)
        (new_node latest latest (quad 0 0))
        messages
      ≡ some n)
    × ApplicableAfter latest latest (quad 0 0) (updates false messages) n
run-Applicable_example =
    run-Applicable latest latest (quad 0 0) latest-Fills messages
      (tt, ((λ _. refl), (tt, (tt, (tt, (tt, (tt, (tt, tt))))))))

five : updates false messages ≡ 5
unfolding updates
five = refl

abbrev nothing : Occupancy ℤ
nothing = record { added_quads = []; obs_quads = [] }

abbrev points : List (MapXy ℤ)
points = at 10 2 ∷ at 6 2 ∷ at 10 3 ∷ at 90 90 ∷ []

filter_points-Occupied_example :
    Occupied points lane (filter_points_in_local_map points lane nothing).obs_quads
filter_points-Occupied_example = filter_points-Occupied points lane nothing refl

get_obstacles_in_lane-filter_example :
    get_obstacles_in_lane (quad 0 0) (quad 7 20 ∷ quad 3 8 ∷ []) lane
    ≡ filter (λ o. lies_in lane (midpoint_of o)) (quad 7 20 ∷ quad 3 8 ∷ [])
get_obstacles_in_lane-filter_example =
    get_obstacles_in_lane-filter (quad 0 0) (quad 7 20 ∷ quad 3 8 ∷ []) lane

-- The polygons come in the order of the points, and the one ahead to which the distance is measured is
-- the first of them, not the nearest: 8 and not 4.
first_and_not_nearest :
    forward_distance (quad 1 0) lane (filter_points_in_local_map points lane nothing).obs_quads
    ≡ pos 8
unfolding forward_distance filter_points_in_local_map filter_points is_point_in_a_polygon
    point_in_polys add_quad has_quad quick_point_in_poly_ratio odd_in_corners in_corners crosses lte
    gte equal ◌+ℤ◌ ◌-ℤ◌
first_and_not_nearest = refl
