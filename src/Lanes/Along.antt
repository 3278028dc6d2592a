-- ===== src/Lanes/Along.antt =====
-- Distances along a lane: length_between_polygons, specialDistanceAlongLane, distanceAlongLane and
-- index_of_downstream_poly of art_map/src/lib/PolyOps.cc.
pub mod Downstream
use utexas_art_ros_pkg.Base.{
  ℕ, zero, suc, ◌-◌, List, Option, none, some, and_then, if◌then◌else◌, ltb, leb, ◌==◌, get_elem?,
  length, ℤ, pos, negsuc, true,
}
use utexas_art_ros_pkg.Numeric.{Floats}
use utexas_art_ros_pkg.RoadMap.WayPoint.{MapXy}
use utexas_art_ros_pkg.Lanes.Geometry.{
  midpoint, origin, distance_from_line, get_closest_point_to_line,
}
use utexas_art_ros_pkg.Lanes.Poly.{Poly}
use utexas_art_ros_pkg.Lanes.Closest.{get_closest_poly}

module _ {F : Type 0} ⦃fl : Floats F⦄ where
  -- the length of the polygon at an index; only indices in range are asked
  abbrev pub length_at : List (Poly F) → ℕ → F
  length_at polys i = elim (get_elem? polys i) [ none ↦ fl.of_int (pos 0) | some p ↦ p.length ]

  -- the loop of length_between_polygons, with the rounds left
  unfoldable pub sum_lengths : ℕ → ℕ → List (Poly F) → F → F
  sum_lengths zero i polys sum = sum
  sum_lengths (suc rounds) i polys sum =
      sum_lengths rounds (suc i) polys (fl.fadd sum (length_at polys i))

  -- an index after std::max and std::min
  abbrev pub clamped : List (Poly F) → ℤ → ℕ
  clamped polys (pos i) = if ltb i (length polys) then i else length polys
  clamped polys (negsuc i) = 0

  unfoldable pub length_between_polygons : List (Poly F) → ℤ → ℤ → F
  unfolding sum_lengths
  length_between_polygons polys index1 index2 =
      let first = suc (clamped polys index1) in
      sum_lengths (clamped polys index2 - first) first polys (fl.of_int (pos 0))

  -- the distance of a point from an edge
  abbrev pub edge_distance : MapXy F → MapXy F → MapXy F → F
  edge_distance c a b = (distance_from_line c a b).0

  -- the distance between two polygons of known indices, and the projection of the first point
  unfoldable pub distance_between :
      List (Poly F) → ℕ → ℕ → Poly F → Poly F → MapXy F → MapXy F → F × MapXy F
  unfolding midpoint get_closest_point_to_line distance_from_line length_between_polygons
  distance_between polys index1 index2 first last from to =
      let start_point =
        get_closest_point_to_line (midpoint first.p1 first.p4) (midpoint first.p2 first.p3) from
          true in
      let end_point =
        get_closest_point_to_line (midpoint last.p1 last.p4) (midpoint last.p2 last.p3) to true in
      let ahead =
        fl.fadd
          (fl.fadd (edge_distance start_point first.p2 first.p3)
            (length_between_polygons polys (pos index1) (pos index2)))
          (edge_distance end_point last.p1 last.p4) in
      let behind =
        fl.fadd
          (fl.fadd (edge_distance start_point first.p1 first.p4)
            (length_between_polygons polys (pos index2) (pos index1)))
          (edge_distance end_point last.p2 last.p3) in
      let here =
        fl.fadd
          (fl.fadd (fl.fneg (edge_distance start_point first.p1 first.p4)) (fl.of_int (pos 0)))
          (edge_distance end_point last.p1 last.p4) in
      (
        if ltb index1 index2 then ahead else if ltb index2 index1 then fl.fneg behind else here,
        start_point,
      )

  unfoldable pub special_distance_along_lane : List (Poly F) → MapXy F → MapXy F → F × MapXy F
  unfolding get_closest_poly distance_between
  special_distance_along_lane polys from to =
      elim (and_then (get_closest_poly polys from) λ index1.
        and_then (get_closest_poly polys to) λ index2. and_then (get_elem? polys index1) λ first.
          and_then (get_elem? polys index2)
            λ last. some (distance_between polys index1 index2 first last from to)) [
              | none ↦ (fl.of_int (pos 0), origin)
              | some r ↦ r
            ]

  unfoldable pub distance_along_lane : List (Poly F) → MapXy F → MapXy F → F
  unfolding special_distance_along_lane
  distance_along_lane polys from to = (special_distance_along_lane polys from to).0

  -- The loop of index_of_downstream_poly; it ends at the last index, so the rounds are as many as
  -- the polygons after the first.
  unfoldable pub downstream : ℕ → List (Poly F) → F → ℕ → F → ℕ
  downstream zero polys distance index length_so_far = index
  downstream (suc rounds) polys distance index length_so_far =
      let rest =
        downstream rounds polys distance (suc index)
          (fl.fadd length_so_far (length_at polys (suc index))) in
      if fl.lt length_so_far distance
      then if suc index == length polys then index else rest
      else index

  unfoldable pub index_of_downstream_poly : List (Poly F) → ℤ → F → Option ℕ
  unfolding downstream
  index_of_downstream_poly polys (negsuc i) distance = none
  index_of_downstream_poly polys (pos i) distance =
      if leb (length polys) i
      then none
      else if fl.le distance (fl.of_int (pos 0))
      then some i
      else some (downstream (length polys - i) polys distance i (length_at polys i))
