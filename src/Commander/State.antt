-- ===== src/Commander/State.antt =====
-- The commander's state, and the route that it plans: class Commander of
-- art_nav/src/commander/command.cc (next_checkpoint, replan_route, set_checkpoint_goals).
use utexas_art_ros_pkg.Base.{
  ℕ, zero, suc, ◌+◌, Bool, true, false, List, [], ◌∷◌, Option, none, some, if◌then◌else◌, ◌==◌, ltb,
  length, ℤ, null,
}
use utexas_art_ros_pkg.Numeric.{Floats}
use utexas_art_ros_pkg.RoadMap.Element.{element_id}
use utexas_art_ros_pkg.RoadMap.WayPoint.{WayPointNode, WayPointEdge}
use utexas_art_ros_pkg.RoadMap.Graph.{Graph, get_node_by_id}
use utexas_art_ros_pkg.Messages.{Order, NavigatorState}
use utexas_art_ros_pkg.Commander.Route.{Route, new_path, append_path}
use utexas_art_ros_pkg.Commander.Mission.{
  Mission, next_point, current_checkpoint_elementid, next_checkpoint_elementid,
}
use utexas_art_ros_pkg.Commander.Blockages.{Block, pop_oldest}
use utexas_art_ros_pkg.Commander.Search.{TopChoice, Outcome, returned, out_of_fuel, astar_search}

-- class ZonePerimeter of art_map/include/art_map/zones.h, without its points
pub record ZonePerimeter (F : Type 0) : Type 0 where
  pub speed_limit : F
  pub zone_id : ℤ

-- `speedlimit` is a `float`, `replan_num` an `int` that starts at 0.
pub record Commander (F : Type 0) : Type 0 where
  pub graph : Graph F
  pub mission : Mission
  pub blockages : List (Block F)
  pub navstate : NavigatorState
  pub order : Order F
  pub goal : WayPointNode F
  pub goal2 : WayPointNode F
  pub zones : List (ZonePerimeter F)
  pub route : Route F
  pub speedlimit : F
  pub replan_num : ℕ

-- A member function ends with the new state and its result, or in a fault of the program: a null
-- pointer is followed, or an index is out of range.
pub data Run {ℓ} (A : Type ℓ) : Type ℓ where
  ok : A → Run A
  fault : Run A

infixl 5 ◌>>=◌
abbrev pub ◌>>=◌ {ℓ κ} : {A : Type ℓ} {B : Type κ} → Run A → (A → Run B) → Run B
ok a >>= f = f a
fault >>= f = fault

abbrev pub of_option {ℓ} : {A : Type ℓ} → Option A → Run A
of_option none = fault
of_option (some a) = ok a

module _ {F : Type 0} where
  abbrev second_goal : Graph F → Mission → WayPointNode F → Run (WayPointNode F)
  second_goal g m goal =
      if ltb 1 (length m.checkpoint_elementid)
      then of_option (get_node_by_id g (next_checkpoint_elementid m))
      else ok goal

  unfoldable pub set_checkpoint_goals : Commander F → Run (Commander F)
  set_checkpoint_goals c = elim (get_node_by_id c.graph (current_checkpoint_elementid c.mission)) [
    | none ↦ ok c
    | some goal ↦
        second_goal c.graph c.mission goal >>= λ goal2. ok (record c { goal = goal; goal2 = goal2 })
  ]

  -- true if another checkpoint remains; the mission is also saved to a file
  unfoldable pub next_checkpoint : Commander F → Run (Commander F × Bool)
  unfolding set_checkpoint_goals
  next_checkpoint c = of_option (next_point c.mission) >>= λ r.
      let c' = record c { mission = r.0 } in
      if r.1 then (set_checkpoint_goals c' >>= λ c''. ok (c'', true)) else ok (c', false)

-- The edges that the search returns; that it returns is `astar_search-Chain`.
abbrev pub result_of : {F : Type 0} → Outcome F → List (WayPointEdge F)
result_of (returned es) = es
result_of out_of_fuel = []

-- How an attempt to plan from one node to the goals ends.
pub data Attempt (F : Type 0) : Type 0 where
  planned : Route F → Attempt F
  no_route : Attempt F

module _ {F : Type 0} ⦃fl : Floats F⦄ (tc : TopChoice F) where
  unfoldable pub plan : Graph F → ℕ → ℕ → F → List (WayPointEdge F)
  unfolding astar_search
  plan g start goal speedlimit = result_of (astar_search tc g goal speedlimit start)

  -- The second leg, from `goal` to `goal2`.
  unfoldable pub second_leg : Commander F → Route F → Attempt F
  unfolding plan
  second_leg c first =
      if c.goal2.index == c.goal.index
      then planned first
      else let edges = plan c.graph c.goal.index c.goal2.index c.speedlimit in
        if null edges
        then no_route
        else planned (append_path first c.goal.index c.goal2.index edges)

  -- The route by the first goal to the second one.
  unfoldable pub attempt : Commander F → ℕ → Attempt F
  unfolding second_leg
  attempt c start =
      let edges = plan c.graph start c.goal.index c.speedlimit in
      if null edges then no_route else second_leg c (new_path start c.goal.index edges)

  -- No route: lift the oldest blockage and try again, if there is one.
  unfoldable pub retry :
      (Commander F → Run (Commander F × Bool))
      → Commander F
      → List (Block F)
      → Run (Commander F × Bool)
  retry again c [] = ok (record c { replan_num = c.replan_num + 1 }, false)
  retry again c (b ∷ bs) = of_option (pop_oldest c.graph (b ∷ bs)) >>= λ popped.
      again (record c { graph = popped.0; blockages = popped.1 })

  -- replan_route; it calls itself once a blockage is lifted, which the fuel counts.
  unfoldable pub replan_with : ℕ → Commander F → Run (Commander F × Bool)
  replan_with zero c = fault
  replan_with (suc fuel) c =
      let c' = record c { replan_num = c.replan_num + 1 } in
      elim (get_node_by_id c.graph (element_id c.navstate.last_waypt)) [
        | none ↦ ok (c', false)
        | some current ↦ elim (current.index == c.goal.index) [
          | true ↦ ok (c', true)
          | false ↦ elim (attempt c' current.index) [
            | planned route ↦ ok (record c' { route = route }, true)
            | no_route ↦ retry (replan_with fuel) c c.blockages
          ]
        ]
      ]

  unfoldable pub replan_route : Commander F → Run (Commander F × Bool)
  unfolding replan_with retry attempt pop_oldest
  replan_route c = replan_with (suc (length c.blockages)) c
