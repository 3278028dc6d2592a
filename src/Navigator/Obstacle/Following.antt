-- ===== src/Navigator/Obstacle/Following.antt =====
-- What FollowSafely::control of art_nav/src/navigator/follow_safely.cc orders.
use utexas_art_ros_pkg.Base.{◌≡◌, ◌↔◌, ◌⊎◌, true, false, pos}
use utexas_art_ros_pkg.Numeric.{Floats}
use utexas_art_ros_pkg.Navigator.State.{fine, blocked, collision, PilotCommand, Nav, Motion}
use utexas_art_ros_pkg.Navigator.Obstacle.{
  car_approaching, too_close, no_obstacle, set_lane_blocked,
}

module _ {F W : Type 0} ⦃fl : Floats F⦄ where
  -- What following an obstacle does to the state, the command and the result.
  pub record Followed (n : Nav F W) (pcmd : PilotCommand F) (m : Motion F W) : Type 0 where
    pub halts : no_obstacle n ≡ false → too_close n ≡ true → m.pcmd.velocity ≡ fl.of_int (pos 0)
    pub flags :
        (m.nav.navdata.lane_blocked ≡ true)
        ↔ ((no_obstacle n ≡ false) × (too_close n ≡ true) × (n.navdata.stopped ≡ true))
    pub blocks : (m.result ≡ blocked) ↔ (
        (no_obstacle n ≡ false)
        × (too_close n ≡ true)
        × (n.navdata.stopped ≡ true)
        × (car_approaching n ≡ false))
    pub goes_on : (m.result ≡ fine) ↔ (
        (no_obstacle n ≡ true)
        ⊎ ((car_approaching n ≡ false) × ((too_close n ≡ false) ⊎ (n.navdata.stopped ≡ false))))
    pub collides : (m.result ≡ collision) ↔ ((no_obstacle n ≡ false) × (car_approaching n ≡ true))
    pub free : no_obstacle n ≡ true → m.pcmd ≡ pcmd
    pub steers : m.pcmd.yaw_rate ≡ pcmd.yaw_rate
    pub others : set_lane_blocked n.navdata.lane_blocked m.nav ≡ n
