-- ===== src/Commander/Orders.antt =====
-- The order for the navigator: prepare_order of art_nav/src/commander/command.cc.
pub mod Filled
use utexas_art_ros_pkg.Base.{
  ℕ, zero, suc, ◌+◌, ◌≡◌, Bool, true, false, ◌&&◌, not, List, [], ◌∷◌, Option, none, some,
  if◌then◌else◌, ◌==◌, get_or, set, ℤ, pos, negsuc, eqb_ℤ,
}
use utexas_art_ros_pkg.Numeric.{Floats}
use utexas_art_ros_pkg.RoadMap.Element.{ElementId, element_id, id_eq}
use utexas_art_ros_pkg.RoadMap.WayPoint.{WayPointNode, WayPointEdge, WayPoint, to_way_point}
use utexas_art_ros_pkg.RoadMap.Graph.{Graph, get_node_by_index}
use utexas_art_ros_pkg.Messages.{Behavior, Order, no_way_point}
use utexas_art_ros_pkg.Commander.Route.{Route, edge_at}
use utexas_art_ros_pkg.Commander.State.{Commander, ZonePerimeter, Run, ok, fault, ◌>>=◌}

-- The order so far, or the one that is returned at once.
pub data Filling (F : Type 0) : Type 0 where
  filling : Order F → Filling F
  stopped : Order F → Filling F

module _ {F : Type 0} ⦃fl : Floats F⦄ where
  abbrev pub waypt_at : Order F → ℕ → WayPoint F
  waypt_at o i = get_or o.waypt i no_way_point

  -- the edge that the loop looks at for the way-point `i`
  abbrev pub order_edge : Route F → ℕ → WayPointEdge F
  order_edge route zero = edge_at route 0
  order_edge route (suc j) = edge_at route j

  abbrev pub order_node : Graph F → WayPointEdge F → ℕ → Option (WayPointNode F)
  order_node g e zero = get_node_by_index g e.startnode_index
  order_node g e (suc j) = get_node_by_index g e.endnode_index

  -- the speeds go with the first way-point, the lane change with the one before a later one
  abbrev pub with_edge : Commander F → WayPointEdge F → ℕ → Order F → Order F
  with_edge c e zero o = record o {
    min_speed = fl.fmin c.speedlimit e.speed_min;
    max_speed = fl.fmin c.speedlimit e.speed_max;
  }
  with_edge c e (suc j) o = record o {
    waypt = set o.waypt j (record (waypt_at o j) { is_lane_change = e.is_implicit });
  }

  -- the way-point of a node, marked if it is a goal
  abbrev pub goal_waypt : Commander F → WayPointNode F → WayPoint F
  goal_waypt c n =
      let wp = to_way_point n in
      if id_eq (element_id wp.id) c.goal.id
      then record wp {
        is_goal = true;
        is_stop = if id_eq (element_id wp.id) c.goal2.id then true else wp.is_stop;
      }
      else wp

  -- The body of the loop for the way-point `i`. A way-point that is not on the map is reported with
  -- its name, which follows the null pointer.
  unfoldable pub fill_waypt : Commander F → ℕ → Order F → Run (Filling F)
  unfolding edge_at get_node_by_index to_way_point
  fill_waypt c i o =
      let e = order_edge c.route i in
      if fl.lt e.distance (fl.of_int (pos 0))
      then ok (stopped (record o { behavior = Behavior.abort }))
      else elim (order_node c.graph e i) [
        | none ↦ fault
        | some n ↦
            let o' = with_edge c e i o in
            ok (filling (record o' { waypt = set o'.waypt i (goal_waypt c n) }))
      ]

  -- the rounds of the loop that are left, and the way-point
  unfoldable pub fill_from : Commander F → ℕ → ℕ → Order F → Run (Filling F)
  unfolding fill_waypt
  fill_from c zero i o = ok (filling o)
  fill_from c (suc k) i o = fill_waypt c i o >>= λ r. elim r [
    | stopped o' ↦ ok (stopped o')
    | filling o' ↦ fill_from c k (i + 1) o'
  ]

  -- the zone in which the first two way-points lie limits the speed
  unfoldable pub limit_in_zones : F → List (ZonePerimeter F) → Order F → Order F
  limit_in_zones speedlimit [] o = o
  limit_in_zones speedlimit (z ∷ zs) o = limit_in_zones speedlimit zs (
      if eqb_ℤ z.zone_id (pos (waypt_at o 0).id.seg) && eqb_ℤ z.zone_id (pos (waypt_at o 1).id.seg)
      then record o { max_speed = fl.fmin speedlimit z.speed_limit }
      else o)

  -- a turn: the next way-point lies in another lane of the segment, and no lane change leads there
  abbrev pub is_uturn : WayPoint F → WayPoint F → Bool
  is_uturn a b = (a.id.seg == b.id.seg) && not (a.id.lane == b.id.lane) && not a.is_lane_change

  unfoldable pub first_uturn : ℕ → ℕ → Order F → ℤ
  first_uturn zero i o = negsuc 0
  first_uturn (suc k) i o =
      let later = first_uturn k (i + 1) o in
      if is_uturn (waypt_at o i) (waypt_at o (i + 1)) then pos i else later

  abbrev pub finish : Commander F → Order F → Order F
  finish c o =
      let limited = limit_in_zones c.speedlimit c.zones o in
      record limited { replan_num = c.replan_num; next_uturn = first_uturn 4 0 limited }

  abbrev pub begin_order : Commander F → Behavior → Order F
  begin_order c behavior = record (c.order) {
    behavior = behavior;
    chkpt = to_way_point c.goal ∷ to_way_point c.goal2 ∷ [];
  }

  -- The order is kept in the commander too.
  unfoldable pub prepare_order : Commander F → Behavior → Run (Commander F × Order F)
  unfolding fill_from limit_in_zones first_uturn
  prepare_order c behavior = fill_from c 5 0 (begin_order c behavior) >>= λ r. elim r [
    | stopped o ↦ ok (record c { order = o }, o)
    | filling o ↦ ok (record c { order = finish c o }, finish c o)
  ]
