-- ===== src/Navigator/Road/Faults.antt =====
-- Two faults of the road machine of art_nav/src/navigator/road.cc: way-points that are reached in the
-- state Block, and the state Zone, whose controller is scaffolding.
use utexas_art_ros_pkg.Base.{
  ◌≡◌, ◌↔◌, ◌⊎◌, inl, inr, refl, ◌∙◌, ap, sym, subst, true, false, ◌&&◌, arith,
}
use utexas_art_ros_pkg.Numeric.{Floats}
use utexas_art_ros_pkg.Messages.{RoadState}
use utexas_art_ros_pkg.Navigator.State.{fine, not_applicable, PilotCommand, Nav, halted}
use utexas_art_ros_pkg.Navigator.Course.{waypt, at_next_waypt, new_waypts}
use utexas_art_ros_pkg.Navigator.Road.{RoadEvent, Road, Roadwork, RoadCycle, pend, road_transition}
use utexas_art_ros_pkg.Navigator.Road.Steady.{act_in_block}
use utexas_art_ros_pkg.Navigator.Road.Waiting.{act_in_zone}
use utexas_art_ros_pkg.Navigator.Road.Entry.{road_action, enter_road, publish_road, road_control}
use utexas_art_ros_pkg.Navigator.Road.Events.{is_error, unforeseen-Refused}

stop_line-error : is_error (road_transition RoadEvent.stop_line RoadState.block).0 ≡ true
unfolding road_transition
stop_line-error = refl

module _ {F W : Type 0} ⦃fl : Floats F⦄ where
  -- The command stays as it was given, and no way-point is checked.
  abbrev pub Unguided : Nav F W → PilotCommand F → RoadCycle F W → Type 0
  Unguided n pcmd c =
      (c.road.state ≡ RoadState.zone)
      × (c.motion.pcmd ≡ pcmd)
      × (c.motion.nav.course ≡ n.course)
      × ((c.motion.result ≡ not_applicable)
          ↔ ((at_next_waypt n && (waypt 1 n.order).is_perimeter) ≡ true))

module _ {F W : Type 0} ⦃fl : Floats F⦄ (k : Roadwork F W) where
  -- A blocked lane that becomes clear in the cycle in which the vehicle reaches a stop line.
  pub record ClearAtStop (r : Road F) (n : Nav F W) (pcmd : PilotCommand F) : Type 0 where
    pub waiting : (r.state ≡ RoadState.block) × (r.pending_event ≡ RoadEvent.none)
    pub same_order : new_waypts n ≡ false
    pub clear : (k.follow_lane n pcmd).result ≡ fine
    pub reached : at_next_waypt (k.follow_lane n pcmd).nav ≡ true
    pub stop_line :
        ((waypt 1 (k.follow_lane n pcmd).nav.order).is_perimeter ≡ false)
        × ((waypt 1 (k.follow_lane n pcmd).nav.order).is_stop ≡ true)

  -- the cycle for an event in a state
  abbrev step : RoadEvent → RoadState → Road F → Nav F W → PilotCommand F → RoadCycle F W
  step e s r n pcmd =
      road_action k (road_transition e s).0 (enter_road e (road_transition e s).1 r)
        (publish_road s (road_transition e s).1 n) pcmd

  control-step :
      (e : RoadEvent) (s : RoadState) (r : Road F) (n : Nav F W) (pcmd : PilotCommand F)
      → r.pending_event ≡ e
      → r.state ≡ s
      → road_control k r n pcmd ≡ step e s r n pcmd
  unfolding road_control
  control-step e s r n pcmd p q = λ i. step (p i) (q i) r n pcmd

  clear_at_stop :
      (r : Road F) (n : Nav F W) (pcmd : PilotCommand F)
      → ClearAtStop r n pcmd
      → (step RoadEvent.none RoadState.block r n pcmd).road
        ≡ pend RoadEvent.stop_line (enter_road RoadEvent.none RoadState.block r)
  unfolding road_transition road_action act_in_block
  clear_at_stop r n pcmd h = rw (h.same_order, h.clear, h.reached, h.stop_line.0, h.stop_line.1)

  -- In the state Block with nothing pending, when the lane becomes clear in the cycle in which the vehicle reaches
  -- a stop line, the event StopLine is left pending, and the cycle after that, whatever its input, halts
  -- the vehicle with the result NotApplicable: the table has no entry for that event.
  pub ClearAtStop-Refused :
      (r : Road F) (n : Nav F W) (pcmd : PilotCommand F)
      → ClearAtStop r n pcmd
      → ((road_control k r n pcmd).road.pending_event ≡ RoadEvent.stop_line)
        × ((n' : Nav F W) (pcmd' : PilotCommand F)
            → ((road_control k (road_control k r n pcmd).road n' pcmd').motion.result
                ≡ not_applicable)
              × ((road_control k (road_control k r n pcmd).road n' pcmd').motion.pcmd ≡ halted))
  ClearAtStop-Refused r n pcmd h =
      let left =
        ap (λ (c : RoadCycle F W). c.road)
          (control-step RoadEvent.none RoadState.block r n pcmd h.waiting.1 h.waiting.0)
        ∙ clear_at_stop r n pcmd h in
      (
        ap (λ (q : Road F). q.pending_event) left,
        λ n' pcmd'.
            let refused = unforeseen-Refused k (road_control k r n pcmd).road n' pcmd' (
              ap (λ (q : Road F). is_error (road_transition q.pending_event q.state).0) left
              ∙ stop_line-error) in
            (refused.0, refused.1),
      )

  -- The state Zone is entered from Follow and Init by the event Perimeter. The command then stays as it was
  -- given, which is the speed limit straight ahead, no way-point is checked, and the result is NotApplicable if
  -- the next way-point is a perimeter point just reached.
  pub zone-Unguided :
      (r : Road F) (n : Nav F W) (pcmd : PilotCommand F)
      → r.pending_event ≡ RoadEvent.perimeter
      → (r.state ≡ RoadState.follow) ⊎ (r.state ≡ RoadState.init)
      → Unguided n pcmd (road_control k r n pcmd)
  unfolding road_transition road_action act_in_zone
  zone-Unguided r n pcmd e (inl s) =
      subst (Unguided n pcmd) (sym (control-step RoadEvent.perimeter RoadState.follow r n pcmd e s))
        (ground arith)
  zone-Unguided r n pcmd e (inr s) =
      subst (Unguided n pcmd) (sym (control-step RoadEvent.perimeter RoadState.init r n pcmd e s))
        (ground arith)
