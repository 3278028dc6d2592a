-- ===== src/Commander/Fsm/Runs.antt =====
-- What a cycle of the machine does: CmdrFSM::control of art_nav/src/commander/FSM.cc.
use utexas_art_ros_pkg.Base.{◌≡◌, refl, subst, Bool, true, false, [], ◌∷◌, if_elim, ◌⊎◌, inl, inr}
use utexas_art_ros_pkg.Numeric.{Floats}
use utexas_art_ros_pkg.RoadMap.Element.{element_id, id_eq, id_ne}
use utexas_art_ros_pkg.Messages.{Behavior, NavigatorState, Order}
use utexas_art_ros_pkg.Commander.Route.{Route}
use utexas_art_ros_pkg.Commander.Search.{TopChoice}
use utexas_art_ros_pkg.Commander.State.{replan_route, next_checkpoint}
use utexas_art_ros_pkg.Commander.Outcomes.{Ensures, Ensures-bind, Ensures-any}
use utexas_art_ros_pkg.Commander.Orders.{prepare_order}
use utexas_art_ros_pkg.Commander.Orders.Filled.{prepare_order-behavior}
use utexas_art_ros_pkg.Commander.Fsm.{
  CmdrState, init, road, CmdrEvent, enter_lane, fail, replan, wait, transition, Machine, Seen,
  Walked, arrived, lost, advance,
}
use utexas_art_ros_pkg.Commander.Fsm.Event.{
  current_event, event_on, enter, after_walk, urgent, tick,
}
use utexas_art_ros_pkg.Commander.Fsm.Control.{
  go, replan_and_go, blocked_action, replan_action, init_action, perform, enter_state, control,
}

abbrev pub is_done : CmdrState → Bool
is_done CmdrState.done = true
is_done init = false
is_done road = false

-- The states that may follow one another in a cycle, and the behavior that is ordered.
pub data Step : CmdrState → CmdrState → Behavior → Type 0 where
  stay_init : Step init init Behavior.initialize
  complete : (s : CmdrState) → Step s CmdrState.done Behavior.quit
  give_up : (s : CmdrState) → is_done s ≡ false → Step s CmdrState.done Behavior.abort
  drive : (s : CmdrState) → is_done s ≡ false → Step s road Behavior.go
  no_order : (s : CmdrState) → is_done s ≡ false → Step s road Behavior.abort

road-Step :
    (s t : CmdrState) (b : Behavior)
    → is_done s ≡ false
    → t ≡ road
    → (b ≡ Behavior.go) ⊎ (b ≡ Behavior.abort)
    → Step s t b
road-Step s t b h e (inl g) = rw (e, g) (drive s h)
road-Step s t b h e (inr g) = rw (e, g) (no_order s h)

module _ {F : Type 0} ⦃fl : Floats F⦄ where
  -- A step of the machine from a state.
  abbrev pub Steps : CmdrState → Machine F × Order F → Type 0
  Steps s r = Step s r.0.fsm.state r.1.behavior

  go-Steps :
      (s : CmdrState) (m : Machine F)
      → is_done s ≡ false
      → m.fsm.state ≡ road
      → Ensures (Steps s) (go m)
  unfolding go
  go-Steps s m h e =
      Ensures-bind (λ r. (r.1.behavior ≡ Behavior.go) ⊎ (r.1.behavior ≡ Behavior.abort)) (Steps s)
        (prepare_order m.cmdr Behavior.go) _ (prepare_order-behavior Behavior.go m.cmdr)
        (λ r hr. road-Step s m.fsm.state r.1.behavior h e hr)

module _ {F : Type 0} ⦃fl : Floats F⦄ (tc : TopChoice F) (now : F) where
  replan_and_go-Steps :
      (s : CmdrState) (m : Machine F)
      → is_done s ≡ false
      → m.fsm.state ≡ road
      → Ensures (Steps s) (replan_and_go tc now m)
  unfolding replan_and_go
  replan_and_go-Steps s m h e = Ensures-any (Steps s) (replan_route tc m.cmdr) _ (λ r.
      if_elim (Ensures (Steps s)) r.1 (λ _. go-Steps s (record m { cmdr = r.0 }) h e)
        (λ _. go-Steps s (record m { cmdr = r.0 }) h e))

  init_action-Steps :
      (m : Machine F) → m.fsm.state ≡ road → Ensures (Steps init) (init_action tc now m)
  unfolding init_action
  init_action-Steps m e = Ensures-any (Steps init) (replan_route tc m.cmdr) _ (λ r.
      if_elim (Ensures (Steps init)) r.1 (λ _. go-Steps init (record m { cmdr = r.0 }) refl e)
        (λ _. road-Step init m.fsm.state Behavior.abort refl e (inr refl)))

  blocked_action-Steps :
      (m : Machine F) → m.fsm.state ≡ road → Ensures (Steps road) (blocked_action tc now m)
  unfolding blocked_action
  blocked_action-Steps m e = replan_and_go-Steps road _ refl e

  replan_action-Steps :
      (m : Machine F) → m.fsm.state ≡ road → Ensures (Steps road) (replan_action tc now m)
  unfolding replan_action
  replan_action-Steps m e = replan_and_go-Steps road _ refl e

  perform-Steps :
      (event : CmdrEvent) (s : CmdrState) (m : Machine F)
      → Ensures
          (Steps s)
          (perform tc now (transition event s).0 (enter_state tc now (transition event s).1 m))
  unfolding transition perform
  perform-Steps CmdrEvent.blocked CmdrState.done m = complete _
  perform-Steps CmdrEvent.blocked init m = stay_init
  perform-Steps CmdrEvent.blocked road m = blocked_action-Steps (enter_state tc now road m) refl
  perform-Steps CmdrEvent.done CmdrState.done m = complete _
  perform-Steps CmdrEvent.done init m = complete _
  perform-Steps CmdrEvent.done road m = complete _
  perform-Steps enter_lane CmdrState.done m = complete _
  perform-Steps enter_lane init m = init_action-Steps _ refl
  perform-Steps enter_lane road m = go-Steps road (enter_state tc now road m) refl refl
  perform-Steps fail CmdrState.done m = complete _
  perform-Steps fail init m = give_up _ refl
  perform-Steps fail road m = give_up _ refl
  perform-Steps CmdrEvent.none CmdrState.done m = complete _
  perform-Steps CmdrEvent.none init m = stay_init
  perform-Steps CmdrEvent.none road m = go-Steps road (enter_state tc now road m) refl refl
  perform-Steps wait CmdrState.done m = complete _
  perform-Steps wait init m = stay_init
  perform-Steps wait road m = go-Steps road (enter_state tc now road m) refl refl
  perform-Steps replan CmdrState.done m = complete _
  perform-Steps replan init m = stay_init
  perform-Steps replan road m = replan_action-Steps (enter_state tc now road m) refl

  -- An event is found without a change of state.
  abbrev Keeps : CmdrState → Machine F × CmdrEvent → Type 0
  Keeps s r = r.0.fsm.state ≡ s

  urgent-Keeps :
      (seen : Seen) (finished : Bool) (m : Machine F)
      → Ensures (Keeps m.fsm.state) (urgent tc seen finished m)
  unfolding urgent
  urgent-Keeps seen finished m =
      if_elim (Ensures (Keeps m.fsm.state)) finished (λ _. refl)
        λ _.
          if_elim (Ensures (Keeps m.fsm.state))
            (id_ne (element_id m.fsm.fsm_navstate.replan_waypt) m.fsm.old_replan) (λ _. refl)
            λ _.
              if_elim (Ensures (Keeps m.fsm.state)) seen.goal1
                (λ _. Ensures-any (Keeps m.fsm.state) (replan_route tc m.cmdr) _ (λ r. refl))
                (λ _. refl)

  after_walk-Keeps :
      (m : Machine F) (w : Walked F) → Ensures (Keeps m.fsm.state) (after_walk tc m w)
  unfolding after_walk
  after_walk-Keeps m (lost route s) = refl
  after_walk-Keeps m (arrived route s e) =
      Ensures-any (Keeps m.fsm.state) (tick s _) _ (λ r. urgent-Keeps s r.1 _)

  event_on-Keeps :
      (route : Route F) (m : Machine F) → Ensures (Keeps m.fsm.state) (event_on tc route m)
  unfolding event_on enter
  event_on-Keeps [] m =
      if_elim (Ensures (Keeps m.fsm.state))
        (id_eq (element_id m.fsm.fsm_navstate.last_waypt) m.cmdr.goal.id)
        (λ _. Ensures-any (Keeps m.fsm.state) (next_checkpoint m.cmdr) _ (λ r. refl)) (λ _. refl)
  event_on-Keeps (e ∷ es) m =
      after_walk-Keeps m
        (advance (element_id m.fsm.fsm_navstate.last_waypt) m.cmdr m.fsm.current_way)

  -- A cycle of the machine that does not fault goes from its state to the next by one of the steps: it stays in
  -- Init with the order Initialize; it ends in Done with the order Quit, from any state; it ends there with Abort, or goes
  -- on the road with Go or Abort, but never from Done. So it never leaves Done, and never returns to Init.
  pub control-Steps :
      (navstate : NavigatorState) (m : Machine F)
      → Ensures (Steps m.fsm.state) (control tc now navstate m)
  unfolding control current_event
  control-Steps navstate m =
      let m' = record m { fsm = record (m.fsm) { fsm_navstate = navstate } } in
      Ensures-bind (Keeps m.fsm.state) (Steps m.fsm.state) (current_event tc m') _
        (event_on-Keeps m'.cmdr.route m')
        (λ r hr.
          subst
            (λ s. Ensures (Steps s) (
              perform tc now (transition r.1 r.0.fsm.state).0
                (enter_state tc now (transition r.1 r.0.fsm.state).1 r.0)))
            hr (perform-Steps r.1 r.0.fsm.state r.0))
