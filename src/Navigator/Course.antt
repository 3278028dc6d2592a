-- ===== src/Navigator/Course.antt =====
-- The bookkeeping of class Course, art_nav/src/navigator/course.cc and course.h: the way-points of the
-- order, the turn signals, and the order that a road block saves.
pub mod Ahead
pub mod Plan
pub mod Uturn
use utexas_art_ros_pkg.Base.{
  ℕ, zero, suc, Bool, true, false, ◌&&◌, ◌||◌, not, List, [], ◌∷◌, map, if◌then◌else◌, ◌==◌, get_or,
  ℤ, pos, negsuc, ltb_ℤ,
}
use utexas_art_ros_pkg.Numeric.{Floats}
use utexas_art_ros_pkg.RoadMap.Element.{
  ElementId, MapId, element_id, to_map_id, id_eq, id_ne, same_lane,
}
use utexas_art_ros_pkg.RoadMap.WayPoint.{WayPoint}
use utexas_art_ros_pkg.Messages.{Order, NavigatorState, no_way_point}
use utexas_art_ros_pkg.Navigator.State.{Course, Nav}

-- Course::direction_t
pub data Direction : Type 0 where
  right straight left : Direction

-- One round of the assignments in begin_run_cycle: each element takes the place of the one before
-- it, and the last one stays.
abbrev pub repeat_last {ℓ} : {A : Type ℓ} → A → List A → List A
repeat_last x [] = x ∷ []
repeat_last x (y ∷ ys) = y ∷ repeat_last y ys

abbrev pub shift {ℓ} : {A : Type ℓ} → List A → List A
shift [] = []
shift (x ∷ xs) = repeat_last x xs

-- Course::same_lane: a segment may loop back to itself
unfoldable pub course_same_lane : ElementId → ElementId → Bool
unfolding same_lane
course_same_lane a b = same_lane a b && not (ltb_ℤ b.pt a.pt)

-- whether any identifier of an order differs from the one that is saved at its place
pub any_ne : List ElementId → List ElementId → Bool
any_ne [] ids = false
any_ne (a ∷ saved) [] = false
any_ne (a ∷ saved) (b ∷ ids) = let rest = any_ne saved ids in if id_ne a b then true else rest

-- an index into an order, as an `int` that is negative where there is none
abbrev pub is_index : ℕ → ℤ → Bool
is_index i (pos n) = i == n
is_index i (negsuc n) = false

-- whether a turn signal has to change
abbrev pub differs : Bool → Bool → Bool
differs true b = not b
differs false b = b

module _ {F : Type 0} where
  abbrev pub order_ids : Order F → List ElementId
  order_ids o = map (λ (w : WayPoint F). element_id w.id) o.waypt

module _ {F : Type 0} ⦃fl : Floats F⦄ where
  -- order->waypt[i]
  abbrev pub waypt : ℕ → Order F → WayPoint F
  waypt i o = get_or o.waypt i no_way_point

  abbrev pub waypt_id : ℕ → Order F → ElementId
  waypt_id i o = element_id (waypt i o).id

  -- The loop of begin_run_cycle, for as many rounds as its limit lets it make.
  unfoldable pub advance_order : ℕ → MapId → Order F → Order F
  advance_order zero last o = o
  advance_order (suc limit) last o =
      let rest = advance_order limit last (record o { waypt = shift o.waypt }) in
      if id_ne (waypt_id 0 o) (element_id last) then rest else o

  unfoldable pub uturn_waypt : ℕ → Order F → Bool
  uturn_waypt i o = is_index i o.next_uturn

  abbrev pub special_waypt : ℕ → Order F → Bool
  special_waypt i o = (waypt i o).is_stop || uturn_waypt i o

  -- the rounds left of the loop, and its index
  unfoldable pub uturn_from : ℕ → ℕ → Order F → ℤ
  unfolding uturn_waypt same_lane
  uturn_from zero i o = negsuc 0
  uturn_from (suc rounds) i o =
      let rest = uturn_from rounds (suc i) o in
      if not (same_lane (waypt_id i o) (waypt_id 0 o))
      then negsuc 0
      else if uturn_waypt i o
      then pos i
      else rest

  unfoldable pub uturn_order_index : Order F → ℤ
  unfolding uturn_from
  uturn_order_index o = uturn_from 3 1 o

module _ {F W : Type 0} where
  abbrev pub set_signals : Bool → Bool → Nav F W → Nav F W
  set_signals l r n = record n {
    navdata = record (n.navdata) { signal_left = l; signal_right = r };
  }

  unfoldable pub turn_signals_off : Nav F W → Nav F W
  turn_signals_off n =
      if n.navdata.signal_left || n.navdata.signal_right then set_signals false false n else n

  -- true for a left turn
  unfoldable pub turn_signal_on : Bool → Nav F W → Nav F W
  turn_signal_on direction n =
      if differs n.navdata.signal_left direction || differs n.navdata.signal_right (not direction)
      then set_signals direction (not direction) n
      else n

  unfoldable pub signal_for_direction : Direction → Nav F W → Nav F W
  unfolding turn_signals_off turn_signal_on
  signal_for_direction straight n = turn_signals_off n
  signal_for_direction left n = turn_signal_on true n
  signal_for_direction right n = turn_signal_on false n

  unfoldable pub signal_pass : Nav F W → Nav F W
  unfolding turn_signal_on
  signal_pass n = turn_signal_on n.course.passing_left n

  unfoldable pub signal_pass_return : Nav F W → Nav F W
  unfolding turn_signal_on
  signal_pass_return n = turn_signal_on (not n.course.passing_left) n

  unfoldable pub new_waypoint_reached : ElementId → Nav F W → Nav F W
  new_waypoint_reached way n = record n {
    course = record (n.course) { waypoint_checked = true };
    navdata = record (n.navdata) { last_waypt = to_map_id way };
  }

  unfoldable pub new_waypts : Nav F W → Bool
  unfolding any_ne
  new_waypts n =
      if not (n.course.saved_replan_num == n.order.replan_num)
      then true
      else any_ne n.course.saved_waypt_id (order_ids n.order)

  -- replan_roadblock saves the order; what it returns is geometry
  unfoldable pub save_order : Nav F W → Nav F W
  save_order n = record n {
    course = record (n.course) {
      saved_waypt_id = order_ids n.order;
      saved_replan_num = n.order.replan_num;
    };
  }

module _ {F W : Type 0} ⦃fl : Floats F⦄ where
  -- whether the last way-point reached is the next one of the order
  abbrev pub at_next_waypt : Nav F W → Bool
  at_next_waypt n = id_eq (element_id n.navdata.last_waypt) (waypt_id 1 n.order)
