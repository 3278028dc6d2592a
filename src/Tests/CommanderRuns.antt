-- ===== src/Tests/CommanderRuns.antt =====
-- Runs of the mission, the blockages and the machine of art_nav/src/commander and art_nav/src/lib.
use utexas_art_ros_pkg.Base.{◌≡◌, ◌≢◌, ◌↔◌, refl, true, List, [], ◌∷◌, none, some, ℤ, pos, All}
use utexas_art_ros_pkg.Numeric.{whole}
use utexas_art_ros_pkg.RoadMap.Element.{element_id, id_eq, id_ne}
use utexas_art_ros_pkg.RoadMap.Graph.{Graph, get_node_by_index}
use utexas_art_ros_pkg.Commander.Mission.{Mission, checkpoint_node, populate_elementid}
use utexas_art_ros_pkg.Commander.Mission.Checkpoints.{Aligned}
use utexas_art_ros_pkg.Commander.Mission.Visits.{
  Visited, populate_elementid_correct, visits_in_order,
}
use utexas_art_ros_pkg.Commander.Blockages.{Block, add_block, pop_oldest}
use utexas_art_ros_pkg.Commander.Blockages.Size.{IsSized, blockages-IsSized}
use utexas_art_ros_pkg.Commander.State.{replan_route}
use utexas_art_ros_pkg.Commander.Planning.{Correct, replan_route-Correct}
use utexas_art_ros_pkg.Commander.Outcomes.{Ensures}
use utexas_art_ros_pkg.Commander.Fsm.{arrived, not_seen, advance, init}
use utexas_art_ros_pkg.Commander.Fsm.Control.{control}
use utexas_art_ros_pkg.Commander.Fsm.Runs.{Steps, control-Steps}
use utexas_art_ros_pkg.Tests.Sample.{town, node, edge, first_choice}
use utexas_art_ros_pkg.Tests.Vehicle.{
  at_start, navigator, errand, barrier, driver, to_the_goals, parked,
}

abbrev fresh : Mission
fresh = record { checkpoint_ids = pos 2 ∷ pos 3 ∷ []; checkpoint_elementid = [] }

populate_elementid_correct_example :
    (((populate_elementid town fresh).1 ≡ true)
      ↔ All (λ c. checkpoint_node town.nodes c ≢ none) fresh.checkpoint_ids)
    × ((populate_elementid town fresh).0.checkpoint_ids ≡ fresh.checkpoint_ids)
    × ((populate_elementid town fresh).1 ≡ true
        → Aligned town.nodes fresh.checkpoint_ids
            (populate_elementid town fresh).0.checkpoint_elementid)
populate_elementid_correct_example = populate_elementid_correct town fresh refl

visits_in_order_example : Visited 1 errand
visits_in_order_example = visits_in_order 1 errand refl

blockages-IsSized_example :
    IsSized (add_block town (barrier ∷ []) to_the_goals (pos 9) (node 1 1 2).id).0
    × ((h : Graph ℤ) (rest : List (Block ℤ))
        → pop_oldest town (barrier ∷ []) ≡ some (h, rest)
        → IsSized h)
blockages-IsSized_example =
    blockages-IsSized town (barrier ∷ []) to_the_goals (pos 9) (node 1 1 2).id refl

replan_route-Correct_example :
    Correct first_choice
      (driver (barrier ∷ []) [])
      (replan_route first_choice (driver (barrier ∷ []) []))
replan_route-Correct_example = replan_route-Correct first_choice (driver (barrier ∷ []) [])

-- from way-point 1.1.1 to 1.1.2 the first edge is left behind
advance-walks :
    advance (node 1 1 2).id (driver [] to_the_goals) (element_id at_start)
    ≡ arrived (edge 1 2 10 ∷ edge 2 3 10 ∷ []) (not_seen (node 1 1 2).id) (edge 1 2 10)
unfolding advance id_ne id_eq element_id get_node_by_index
advance-walks = refl

control-Steps_example :
    Ensures (Steps init) (control first_choice (pos 9) (navigator at_start) parked)
control-Steps_example = control-Steps first_choice (pos 9) (navigator at_start) parked
