-- ===== src/Lanes/Select.antt =====
-- Taking polygons out of a list: the loops of class PolyOps that fill `to_polys` from `from_polys`. An
-- `at` that is out of range throws; where that can happen the result is `none`.
pub mod Ids
pub mod Kept
pub mod Reverse
use utexas_art_ros_pkg.Base.{
  ℕ, zero, suc, ◌-◌, Bool, ◌||◌, not, List, ℤ, [], ◌∷◌, ◌++◌, map, Option, none, some, and_then,
  if◌then◌else◌, get_elem?, length, ltb_ℤ, eqb_ℤ, pos,
}
use utexas_art_ros_pkg.Numeric.{Floats}
use utexas_art_ros_pkg.RoadMap.Element.{ElementId, id_eq, id_ne, id_lt, valid, same_lane}
use utexas_art_ros_pkg.RoadMap.WayPoint.{MapXy, WayPointNode}
use utexas_art_ros_pkg.Lanes.Poly.{
  Poly, lane_poly, match_waypt_poly, match_transition_poly, point_in_poly, get_poly_edge_midpoint,
}
use utexas_art_ros_pkg.Lanes.Closest.{index_from, get_closest_poly}

-- std::set<ElementID>::insert, on the elements in their order
unfoldable pub insert_id : ElementId → List ElementId → List ElementId
insert_id a [] = a ∷ []
insert_id a (b ∷ bs) =
    let rest = insert_id a bs in
    if id_lt a b then a ∷ b ∷ bs else if id_lt b a then b ∷ rest else b ∷ bs

module _ {F : Type 0} where
  abbrev pub push_if : Bool → Poly F → List (Poly F) → List (Poly F)
  push_if test p to = if test then to ++ (p ∷ []) else to

  -- A loop that pushes the polygons that pass a test.
  unfoldable pub push_matching : (Poly F → Bool) → List (Poly F) → List (Poly F) → List (Poly F)
  push_matching test [] to = to
  push_matching test (p ∷ ps) to = push_matching test ps (push_if (test p) p to)

  -- A loop that pushes the first polygon that passes a test, and breaks.
  unfoldable pub push_first : (Poly F → Bool) → List (Poly F) → List (Poly F) → List (Poly F)
  push_first test [] to = to
  push_first test (p ∷ ps) to =
      let rest = push_first test ps to in if test p then to ++ (p ∷ []) else rest

  -- The loop of AddReverseLanePolys: the rounds left are the index and one more.
  unfoldable pub push_reverse : (Poly F → Bool) → List (Poly F) → ℕ → List (Poly F) → List (Poly F)
  push_reverse test ps zero to = to
  push_reverse test ps (suc i) to =
      push_reverse test ps i (elim (get_elem? ps i) [ none ↦ to | some p ↦ push_if (test p) p to ])

  unfoldable pub get_waypoint_index : List (Poly F) → ElementId → Option ℕ
  unfolding index_from match_waypt_poly
  get_waypoint_index polys waypoint = index_from (λ p. match_waypt_poly p waypoint waypoint) 0 polys

  unfoldable pub get_poly_way_pt : List (Poly F) → ElementId → Option ℕ
  unfolding index_from
  get_poly_way_pt polys waypoint = index_from (λ p. id_eq p.start_way waypoint) 0 polys

  unfoldable pub add_polys_for_waypts :
      List (Poly F) → List (Poly F) → ElementId → ElementId → List (Poly F)
  unfolding push_matching push_first match_waypt_poly
  add_polys_for_waypts from_polys to_polys from_id to_id =
      push_first (λ p. match_waypt_poly p to_id to_id) from_polys
        (if id_ne from_id to_id
          then push_matching (λ p. match_waypt_poly p from_id to_id) from_polys to_polys
          else to_polys)

  unfoldable pub add_transition_polys :
      List (Poly F) → List (Poly F) → WayPointNode F → WayPointNode F → List (Poly F)
  unfolding push_matching match_transition_poly
  add_transition_polys from_polys to_polys way0 way1 =
      push_matching (λ p. match_transition_poly p way0 way1) from_polys to_polys

  unfoldable pub add_lane_polys : List (Poly F) → List (Poly F) → ElementId → List (Poly F)
  unfolding push_matching lane_poly
  add_lane_polys from_polys to_polys id = push_matching (λ p. lane_poly p id) from_polys to_polys

  unfoldable pub add_reverse_lane_polys : List (Poly F) → List (Poly F) → ElementId → List (Poly F)
  unfolding push_reverse lane_poly
  add_reverse_lane_polys from_polys to_polys id =
      push_reverse (λ p. lane_poly p id) from_polys (length from_polys) to_polys

  unfoldable pub add_lane_polys_either :
      List (Poly F) → List (Poly F) → WayPointNode F → ℤ → List (Poly F)
  unfolding add_lane_polys add_reverse_lane_polys
  add_lane_polys_either from_polys to_polys waypt direction =
      if not (ltb_ℤ direction (pos 0))
      then add_lane_polys from_polys to_polys waypt.id
      else add_reverse_lane_polys from_polys to_polys waypt.id

  unfoldable pub get_transition_polys : List (Poly F) → List (Poly F)
  unfolding push_matching
  get_transition_polys polys = push_matching (λ p. p.is_transition) polys []

  -- the rounds of the loop of CollectPolys from an index
  unfoldable pub collect_from : ℕ → ℕ → List (Poly F) → List (Poly F) → Option (List (Poly F))
  collect_from zero i from_polys to_polys = some to_polys
  collect_from (suc rounds) i from_polys to_polys =
      and_then (get_elem? from_polys i)
        λ p. collect_from rounds (suc i) from_polys (to_polys ++ (p ∷ []))

  -- CollectPolys with its four arguments; what `to_polys` held is cleared.
  unfoldable pub collect_polys : List (Poly F) → ℕ → ℕ → Option (List (Poly F))
  unfolding collect_from
  collect_polys from_polys start end = collect_from (end - start) start from_polys []

  -- the loop of getPolyLaneIds
  unfoldable pub lane_ids_from : List (Poly F) → List ElementId → List ElementId
  unfolding insert_id
  lane_ids_from [] ids = ids
  lane_ids_from (p ∷ ps) ids =
      let start = p.start_way in
      lane_ids_from ps (insert_id (record { seg = start.seg; lane = start.lane; pt = pos 0 }) ids)

  unfoldable pub get_poly_lane_ids : List (Poly F) → List ElementId
  unfolding lane_ids_from
  get_poly_lane_ids polys = lane_ids_from polys []

  -- the last loop of getPolysBetweenWayPts, once `i` has reached the first polygon
  unfoldable pub between_from : ℤ → List (Poly F) → List (Poly F)
  unfolding push_matching
  between_from pt polys = push_matching (λ p. ltb_ℤ p.start_way.pt pt) polys []

  -- the list from the first polygon that passes a test; empty if none does
  unfoldable pub drop_until : (Poly F → Bool) → List (Poly F) → List (Poly F)
  drop_until test [] = []
  drop_until test (p ∷ ps) = let rest = drop_until test ps in if test p then p ∷ ps else rest

  unfoldable pub get_polys_between_way_pts : List (Poly F) → ElementId → ElementId → List (Poly F)
  unfolding between_from drop_until valid same_lane
  get_polys_between_way_pts from_polys from_id to_id =
      if not (valid from_id) || not (valid to_id)
      then []
      else if not (same_lane from_id to_id)
      then []
      else between_from to_id.pt (drop_until (λ p. eqb_ℤ p.start_way.pt from_id.pt) from_polys)

module _ {F : Type 0} ⦃fl : Floats F⦄ where
  -- the index of the first polygon that has a point inside, else of the closest one
  unfoldable pub index_at : List (Poly F) → MapXy F → Option ℕ
  unfolding index_from point_in_poly get_closest_poly
  index_at polys pt = elim (index_from (λ p. point_in_poly pt p) 0 polys) [
    | none ↦ get_closest_poly polys pt
    | some i ↦ some i
  ]

  -- the loop of getPolysBetweenPoints that copies, with the rounds left
  unfoldable pub copy_until :
      (Poly F → Bool) → ℕ → ℕ → List (Poly F) → List (Poly F) → List (Poly F)
  copy_until test zero i polys to = to
  copy_until test (suc rounds) i polys to = elim (get_elem? polys i) [
    | none ↦ to
    | some p ↦
        let rest = copy_until test rounds (suc i) polys (to ++ (p ∷ [])) in
        if test p then to else rest
  ]

  unfoldable pub get_polys_between_points : List (Poly F) → MapXy F → MapXy F → List (Poly F)
  unfolding index_at copy_until point_in_poly
  get_polys_between_points polys pt1 pt2 = elim (index_at polys pt1) [
    | none ↦ []
    | some i ↦ copy_until (λ p. point_in_poly pt2 p) (length polys - i) i polys []
  ]

  unfoldable pub get_remaining_polys : List (Poly F) → MapXy F → Option (List (Poly F))
  unfolding index_at collect_polys
  get_remaining_polys from_polys point = elim (index_at from_polys point) [
    | none ↦ some []
    | some i ↦ collect_polys from_polys i (length from_polys)
  ]

  unfoldable pub get_points_from_polys : List (Poly F) → List (MapXy F)
  unfolding get_poly_edge_midpoint
  get_points_from_polys polys = map get_poly_edge_midpoint polys
