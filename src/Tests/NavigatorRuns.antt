-- ===== src/Tests/NavigatorRuns.antt =====
-- Runs of the navigator of art_nav/src/navigator at concrete inputs.
use utexas_art_ros_pkg.Base.{
  ◌≤◌, ◌≡◌, refl, ◌⊎◌, inl, Bool, true, false, [], ◌-ℤ◌, ◌∷◌, some, All, ℤ, pos,
}
use utexas_art_ros_pkg.Numeric.{whole}
use utexas_art_ros_pkg.RoadMap.Element.{id_eq, element_id}
use utexas_art_ros_pkg.Messages.{EstopState, RoadState}
use utexas_art_ros_pkg.Navigator.State.{not_applicable, halted, PilotCommand, Obstacle, Nav}
use utexas_art_ros_pkg.Navigator.Course.{advance_order, new_waypts}
use utexas_art_ros_pkg.Navigator.Course.Ahead.{Advanced, advance_order-Advanced}
use utexas_art_ros_pkg.Navigator.Obstacle.{observers_message}
use utexas_art_ros_pkg.Navigator.Obstacle.Latest.{InRange, Updated, observers_message-Updated}
use utexas_art_ros_pkg.Navigator.Estop.{NavEstopEvent, estop_event, estop_control}
use utexas_art_ros_pkg.Navigator.Estop.Halts.{
  Guarded, Disabled, Later, estop_control-Guarded, Later-Disabled,
}
use utexas_art_ros_pkg.Navigator.Road.{RoadEvent, reset_road}
use utexas_art_ros_pkg.Navigator.Road.Entry.{road_control}
use utexas_art_ros_pkg.Navigator.Road.Waits.{Halted, road_control-Halted}
use utexas_art_ros_pkg.Navigator.Road.Events.{Foreseen, Runs, Runs-Foreseen}
use utexas_art_ros_pkg.Navigator.Road.Faults.{ClearAtStop-Refused}
use utexas_art_ros_pkg.Navigator.Run.{Driving, run_control, navigate}
use utexas_art_ros_pkg.Navigator.Run.Orders.{Standing, Drives, run_control-Stands, navigate-Stands}
use utexas_art_ros_pkg.Tests.Cruise.{
  stop_at, go_order, sighting, sightings, sailing, next_stop, rolling, crew, town_terrain, road_in,
  running, run_with, keep_running,
}

advance_order-Advanced_example :
    Advanced next_stop 4 go_order
      (advance_order 4 next_stop go_order)
      (stop_at false 1)
      (stop_at true 2 ∷ stop_at false 3 ∷ stop_at false 4 ∷ stop_at false 5 ∷ [])
advance_order-Advanced_example =
    advance_order-Advanced next_stop 4 go_order (stop_at false 1)
      (stop_at true 2 ∷ stop_at false 3 ∷ stop_at false 4 ∷ stop_at false 5 ∷ []) refl

observers_message-Updated_example :
    (All (InRange 3) (sighting (pos 2) ∷ [])
      → (o' : Obstacle ℤ) × (observers_message 9 (sighting (pos 2) ∷ []) sightings ≡ some o'))
    × ((o' : Obstacle ℤ)
        → observers_message 9 (sighting (pos 2) ∷ []) sightings ≡ some o'
        → Updated (sighting (pos 2) ∷ []) sightings.obs o'.obs
          × (5 ≤ o'.stamp)
          × (9 ≤ o'.stamp)
          × ((o'.stamp ≡ 9) ⊎ (o'.stamp ≡ 5))
          × (record o' { obs = sightings.obs; stamp = 5 } ≡ sightings))
observers_message-Updated_example = observers_message-Updated 9 (sighting (pos 2) ∷ []) sightings

estop_control-Guarded_example : Guarded NavEstopEvent.run EstopState.run (
    estop_control keep_running
      (running EstopState.run NavEstopEvent.run)
      (sailing go_order next_stop true)
      rolling)
unfolding estop_event
estop_control-Guarded_example =
    estop_control-Guarded keep_running (running EstopState.run NavEstopEvent.run)
      (sailing go_order next_stop true) rolling refl

-- a run that failed, and another order to go
Later-Disabled_example : Disabled (
    estop_control keep_running
      (estop_control keep_running
        (running EstopState.run NavEstopEvent.abort)
        (sailing go_order next_stop true)
        rolling).estop
      (estop_control keep_running
        (running EstopState.run NavEstopEvent.abort)
        (sailing go_order next_stop true)
        rolling).motion.nav
      rolling)
unfolding estop_control
Later-Disabled_example =
    Later-Disabled keep_running (running EstopState.run NavEstopEvent.abort)
      (sailing go_order next_stop true) rolling refl (inl refl)
      (Later.next Later.here
        (estop_control keep_running (running EstopState.run NavEstopEvent.abort)
          (sailing go_order next_stop true) rolling).motion.nav
        refl (λ e. cc) rolling)

road_control-Halted_example :
    Halted
      (road_control crew
        (road_in RoadState.follow RoadEvent.stop_line)
        (sailing go_order next_stop true)
        rolling).motion
unfolding road_control ◌-ℤ◌
road_control-Halted_example =
    road_control-Halted crew (road_in RoadState.follow RoadEvent.stop_line)
      (sailing go_order next_stop true) rolling refl

Runs-Foreseen_example :
    Foreseen
      (road_control crew
        (reset_road (road_in RoadState.follow RoadEvent.none))
        (sailing go_order next_stop true)
        rolling).road.state
      (road_control crew
        (reset_road (road_in RoadState.follow RoadEvent.none))
        (sailing go_order next_stop true)
        rolling).road.pending_event
Runs-Foreseen_example =
    Runs-Foreseen crew
      (road_control crew (reset_road (road_in RoadState.follow RoadEvent.none))
        (sailing go_order next_stop true) rolling).road
      (Runs.again (Runs.fresh (road_in RoadState.follow RoadEvent.none))
        (sailing go_order next_stop true) rolling)

ClearAtStop-Refused_example :
    ((road_control crew
        (road_in RoadState.block RoadEvent.none)
        (sailing go_order next_stop true)
        rolling).road.pending_event
      ≡ RoadEvent.stop_line)
    × ((n' : Nav ℤ Bool) (pcmd' : PilotCommand ℤ)
        → ((road_control crew
              (road_control crew
                (road_in RoadState.block RoadEvent.none)
                (sailing go_order next_stop true)
                rolling).road
              n'
              pcmd').motion.result
            ≡ not_applicable)
          × ((road_control crew
                (road_control crew
                  (road_in RoadState.block RoadEvent.none)
                  (sailing go_order next_stop true)
                  rolling).road
                n'
                pcmd').motion.pcmd
              ≡ halted))
unfolding new_waypts id_eq element_id
ClearAtStop-Refused_example =
    ClearAtStop-Refused crew (road_in RoadState.block RoadEvent.none)
      (sailing go_order next_stop true) rolling
      (record {
        waiting = (refl, refl);
        same_order = refl;
        clear = refl;
        reached = refl;
        stop_line = (refl, refl);
      })

run_control-Stands_example :
    Standing
      (run_control town_terrain crew
        (run_with (road_in RoadState.follow RoadEvent.none))
        (sailing go_order next_stop true)).motion.pcmd
    ⊎ Drives town_terrain crew
        (run_with (road_in RoadState.follow RoadEvent.none))
        (sailing go_order next_stop true)
        (run_control town_terrain crew
          (run_with (road_in RoadState.follow RoadEvent.none))
          (sailing go_order next_stop true))
run_control-Stands_example =
    run_control-Stands town_terrain crew (run_with (road_in RoadState.follow RoadEvent.none))
      (sailing go_order next_stop true)

-- the navigator over the same controllers
abbrev under_way : Nav ℤ (Driving ℤ Bool)
under_way =
    sailing go_order next_stop
      (record { run = run_with (road_in RoadState.follow RoadEvent.none); world = true })

navigate-Stands_example :
    Standing
      (navigate town_terrain crew
        (pos 3)
        (pos 1)
        (running EstopState.run NavEstopEvent.none)
        under_way
        rolling).motion.pcmd
    ⊎ ((navigate town_terrain crew
          (pos 3)
          (pos 1)
          (running EstopState.run NavEstopEvent.none)
          under_way
          rolling).estop.estop_state
        ≡ EstopState.run)
      × (n' : Nav ℤ Bool) × (n'.order ≡ go_order)
      × (n'.rest ≡ true)
      × Drives town_terrain crew under_way.rest.run n'
          (run_control town_terrain crew under_way.rest.run n')
navigate-Stands_example =
    navigate-Stands town_terrain crew (pos 3) (pos 1) (running EstopState.run NavEstopEvent.none)
      under_way rolling
