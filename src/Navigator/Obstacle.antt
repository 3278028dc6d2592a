-- ===== src/Navigator/Obstacle.antt =====
-- The observations of class Obstacle, art_nav/src/navigator/obstacle.cc and obstacle.h, and the controller
-- FollowSafely of follow_safely.cc, which follows the nearest of them.
pub mod Latest
pub mod Following
use utexas_art_ros_pkg.Base.{
  ℕ, Bool, true, false, ◌&&◌, ◌||◌, not, List, [], ◌∷◌, Option, none, some, and_then, get_or, set,
  length, if◌then◌else◌, ltb, ℤ, pos, negsuc,
}
use utexas_art_ros_pkg.Numeric.{Floats}
use utexas_art_ros_pkg.Navigator.State.{
  fine, blocked, collision, PilotCommand, Observation, Obstacle, Nav, Motion, start,
}

-- the observers, art_msgs/msg/Observation.msg
abbrev pub nearest_forward : ℕ
nearest_forward = 0

abbrev pub adjacent_left : ℕ
adjacent_left = 2

abbrev pub adjacent_right : ℕ
adjacent_right = 3

abbrev pub merge_across_all : ℕ
merge_across_all = 7

abbrev pub intersection : ℕ
intersection = 8

module _ {F : Type 0} where
  -- obstate.obs[oid] = o: a write out of bounds is undefined, `none`
  unfoldable pub store : ℤ → Observation F → List (Observation F) → Option (List (Observation F))
  store (negsuc n) o obs = none
  store (pos n) o obs = if ltb n (length obs) then some (set obs n o) else none

  unfoldable pub store_all :
      List (Observation F) → List (Observation F) → Option (List (Observation F))
  unfolding store
  store_all [] obs = some obs
  store_all (o ∷ message) obs = and_then (store o.oid o obs) (store_all message)

  -- the callback for an ObservationArray message and its stamp
  unfoldable pub observers_message : ℕ → List (Observation F) → Obstacle F → Option (Obstacle F)
  unfolding store_all
  observers_message stamp message o =
      and_then (store_all message o.obs)
        λ obs. some (record o { obs = obs; stamp = if ltb o.stamp stamp then stamp else o.stamp })

module _ {F : Type 0} ⦃fl : Floats F⦄ where
  abbrev pub no_observation : Observation F
  no_observation = record {
    oid = pos 0;
    applicable = false;
    clear = false;
    time = fl.of_int (pos 0);
    distance = fl.of_int (pos 0);
    velocity = fl.of_int (pos 0);
    nobjects = pos 0;
  }

  -- The constructor makes an observation for each observer, so that the index is in bounds.
  abbrev pub observation : ℕ → Obstacle F → Observation F
  observation i o = get_or o.obs i no_observation

module _ {F W : Type 0} ⦃fl : Floats F⦄ where
  abbrev pub with_timer : Obstacle F → Nav F W → Nav F W
  with_timer o n = record n { obstacle = o }

  -- Obstacle::blocked
  abbrev pub mark_blocked : Nav F W → Nav F W
  mark_blocked n =
      with_timer
        (record (n.obstacle) {
          blockage_timer = start n.config.blockage_timeout_secs n.obstacle.blockage_timer;
        })
        n

  abbrev pub is_clear : ℕ → Nav F W → Bool
  is_clear i n = (observation i n.obstacle).clear && (observation i n.obstacle).applicable

  -- Waiting on an observer restarts the blockage timer.
  unfoldable pub observer_clear : ℕ → Nav F W → Nav F W × Bool
  observer_clear i n = if is_clear i n then (n, true) else (mark_blocked n, false)

  unfoldable pub passing_lane_clear : Nav F W → Nav F W × Bool
  unfolding observer_clear
  passing_lane_clear n =
      if n.course.passing_left
      then observer_clear adjacent_left n
      else observer_clear adjacent_right n

  unfoldable pub car_approaching : Nav F W → Bool
  car_approaching n =
      let o = observation nearest_forward n.obstacle in
      if n.config.offensive_driving
      then false
      else if o.clear || not o.applicable
      then false
      else fl.lt n.config.min_approach_speed (fl.to_float (fl.dsub o.velocity n.speed))

  -- FollowSafely::adjust_speed
  abbrev pub adjust_speed : F → Nav F W → PilotCommand F → PilotCommand F
  adjust_speed obs_dist n pcmd = record pcmd {
    velocity = fl.fmin pcmd.velocity (
        fl.fmin (fl.to_float (fl.ddiv obs_dist n.config.desired_following_time)) n.order.max_speed);
  }

  abbrev pub set_lane_blocked : Bool → Nav F W → Nav F W
  set_lane_blocked b n = record n { navdata = record (n.navdata) { lane_blocked = b } }

  abbrev pub too_close : Nav F W → Bool
  too_close n =
      let o = observation nearest_forward n.obstacle in
      fl.le o.time n.config.min_following_time || fl.le o.distance n.config.close_stopping_distance

  -- the speed and the lane_blocked flag, for an obstacle that matters
  unfoldable pub keep_distance : Nav F W → PilotCommand F → Motion F W
  keep_distance n pcmd =
      let o = observation nearest_forward n.obstacle in
      let desired = n.config.desired_following_time in
      let stop = record pcmd { velocity = fl.of_int (pos 0) } in
      let slower = adjust_speed o.distance n pcmd in
      if too_close n
      then (if n.navdata.stopped
          then record { nav = set_lane_blocked true n; pcmd = stop; result = blocked }
          else record { nav = n; pcmd = stop; result = fine })
      else if fl.lt o.time desired
      then record { nav = n; pcmd = slower; result = fine }
      else if n.navdata.stopped || fl.lt desired o.time
      then record { nav = n; pcmd = slower; result = fine }
      else record { nav = n; pcmd = pcmd; result = fine }

  abbrev pub no_obstacle : Nav F W → Bool
  no_obstacle n =
      let o = observation nearest_forward n.obstacle in
      not o.applicable || fl.le n.obstacle.max_range o.distance

  -- FollowSafely::control
  unfoldable pub follow_safely : Nav F W → PilotCommand F → Motion F W
  unfolding keep_distance car_approaching
  follow_safely n pcmd =
      let n' = set_lane_blocked false n in
      let m = keep_distance n' pcmd in
      if no_obstacle n'
      then record { nav = n'; pcmd = pcmd; result = fine }
      else if car_approaching m.nav
      then record m { result = collision }
      else m
