-- ===== src/Tests/StopRuns.antt =====
-- Runs of the controller Stop of art_nav/src/navigator/stop.cc: a stop 20 metres ahead from 8 metres
-- per second, and the end of one.
use utexas_art_ros_pkg.Base.{◌≡◌, refl, ◌+ℤ◌, ◌-ℤ◌, true, false, ℤ, pos}
use utexas_art_ros_pkg.Numeric.{whole}
use utexas_art_ros_pkg.Navigator.State.{fine, finished, PilotCommand}
use utexas_art_ros_pkg.Navigator.Stop.{
  Stop, StopConfig, reset_stop, approach, begin_stopping, slow_down, stop_control,
}

abbrev pub brakes : StopConfig ℤ
brakes = record {
  stop_latency = pos 0;
  min_stop_distance = pos 4;
  stop_deceleration = pos 1;
  max_creep_distance = pos 5;
  stop_creep_speed = pos 1;
  epsilon_speed = pos 1;
}

abbrev pub ahead : ℤ → PilotCommand ℤ
ahead v = record { velocity = v; yaw_rate = pos 0 }

abbrev pub slowing : Stop ℤ
slowing = record { stopping = true; creeping = false; initial_speed = pos 8 }

slowing_run :
    stop_control brakes reset_stop (pos 8) (ahead (pos 8)) (pos 20) (pos 1) (pos 7)
    ≡ (slowing, ahead (pos 6), fine)
unfolding stop_control reset_stop approach begin_stopping slow_down ◌+ℤ◌ ◌-ℤ◌
slowing_run = refl

stopped_run :
    stop_control brakes slowing (pos 0) (ahead (pos 8)) (pos 1) (pos 1) (pos 7)
    ≡ (slowing, ahead (pos 0), finished)
unfolding stop_control approach begin_stopping ◌+ℤ◌ ◌-ℤ◌
stopped_run = refl
