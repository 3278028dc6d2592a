-- ===== src/Navigator/Estop/Halts.antt =====
-- When the vehicle may be driven: Estop::control of art_nav/src/navigator/estop.cc.
use utexas_art_ros_pkg.Base.{◌≡◌, ◌≢◌, ◌∙◌, true, false, ◌⊎◌, inl, inr, arith}
use utexas_art_ros_pkg.Numeric.{Floats}
use utexas_art_ros_pkg.Messages.{Behavior, EstopState}
use utexas_art_ros_pkg.Navigator.State.{PilotCommand, Nav, halted}
use utexas_art_ros_pkg.Navigator.Estop.{
  NavEstopEvent, Estop, RunControl, Cycle, estop_transition, event_of, estop_event, fails,
  estop_action, publish, with_flags, estop_control,
}

module _ {F W : Type 0} ⦃fl : Floats F⦄ where
  -- What a cycle guarantees for an event that comes in a state.
  pub record Guarded (event : NavEstopEvent) (s : EstopState) (c : Cycle F W) : Type 0 where
    -- outside Run the vehicle is told to stop, without alarm, and the message shows the state
    pub halts :
        c.estop.estop_state ≢ EstopState.run
        → (c.motion.pcmd ≡ halted)
          × (c.motion.nav.navdata.alarm ≡ false)
          × (c.motion.nav.navdata.estop ≡ c.estop.estop_state)
    -- Run is entered by the event Run only, and never from Done
    pub drives :
        c.estop.estop_state ≡ EstopState.run
        → (s ≢ EstopState.done)
          × ((event ≡ NavEstopEvent.run) ⊎ ((event ≡ NavEstopEvent.none) × (s ≡ EstopState.run)))
    -- Done is left by the event Suspend only
    pub stays :
        s ≡ EstopState.done → event ≢ NavEstopEvent.suspend → c.estop.estop_state ≡ EstopState.done
    -- a run that fails has the event Abort pending
    pub aborts : fails c.motion.result ≡ true → c.estop.pending_event ≡ NavEstopEvent.abort

  -- The vehicle stands, in Done, and nothing is pending.
  pub record Disabled (c : Cycle F W) : Type 0 where
    pub is_done : c.estop.estop_state ≡ EstopState.done
    pub shown : c.motion.nav.navdata.estop ≡ EstopState.done
    pub idle : c.estop.pending_event ≡ NavEstopEvent.none
    pub stops : c.motion.pcmd ≡ halted

module _ {F W : Type 0} ⦃fl : Floats F⦄ (b : RunControl F W) where
  abbrev next_cycle :
      NavEstopEvent → EstopState → NavEstopEvent → Nav F W → PilotCommand F → Cycle F W
  next_cycle event s pending n pcmd =
      estop_action b (estop_transition event s).0
        (record {
          pending_event = pending;
          estop_prev = s;
          estop_state = (estop_transition event s).1;
        })
        (publish s (estop_transition event s).1 n) pcmd

  next_cycle-Guarded :
      (event : NavEstopEvent) (s : EstopState) (pending : NavEstopEvent) (n : Nav F W)
      (pcmd : PilotCommand F)
      → n.navdata.estop ≡ s
      → Guarded event s (next_cycle event s pending n pcmd)
  unfolding estop_transition estop_action
  next_cycle-Guarded NavEstopEvent.abort EstopState.pause pending n pcmd h = record {
    halts = λ k. ground arith;
    drives = λ k. ground arith;
    stays = λ k k'. ground arith;
    aborts = λ k. ground arith;
  }
  next_cycle-Guarded _ _ pending n pcmd h = record {
    halts = λ k. ground arith;
    drives = λ k. ground arith;
    stays = λ k k'. ground arith;
    aborts = λ k. ground arith;
  }

  -- Every cycle of the E-stop controller whose message shows its state, for the event that is pending or else
  -- ordered: outside Run the command halts the vehicle, the alarm is off and the message shows the
  -- state; a cycle that ends in Run began with the event Run outside Done, or with no event in Run; only
  -- Suspend leaves Done; and a run that reports that it cannot go on has the event Abort pending.
  pub estop_control-Guarded :
      (e : Estop) (n : Nav F W) (pcmd : PilotCommand F)
      → n.navdata.estop ≡ e.estop_state
      → Guarded
          (estop_event e.pending_event n.order.behavior).0
          e.estop_state
          (estop_control b e n pcmd)
  unfolding estop_control
  estop_control-Guarded e n pcmd h =
      next_cycle-Guarded (estop_event e.pending_event n.order.behavior).0 e.estop_state
        (estop_event e.pending_event n.order.behavior).1 n pcmd h

  next_cycle-Runs :
      (event : NavEstopEvent) (s : EstopState) (pending : NavEstopEvent) (n : Nav F W)
      (pcmd : PilotCommand F)
      → ((next_cycle event s pending n pcmd).motion.pcmd ≡ halted)
        ⊎ ((next_cycle event s pending n pcmd).estop.estop_state ≡ EstopState.run)
          × ((next_cycle event s pending n pcmd).motion
              ≡ b.run_control
                  (with_flags true true (publish s (estop_transition event s).1 n))
                  pcmd)
  unfolding estop_transition estop_action
  next_cycle-Runs NavEstopEvent.abort EstopState.pause pending n pcmd = ground arith
  next_cycle-Runs _ _ pending n pcmd = ground arith

  publish-keeps :
      (s next : EstopState) (n : Nav F W)
      → ((publish s next n).order ≡ n.order) × ((publish s next n).rest ≡ n.rest)
  publish-keeps s next n = ground arith

  -- The vehicle is halted, or in Run the controller Run commands it for the same order and geometry.
  pub estop_control-Runs :
      (e : Estop) (n : Nav F W) (pcmd : PilotCommand F)
      → ((estop_control b e n pcmd).motion.pcmd ≡ halted)
        ⊎ ((estop_control b e n pcmd).estop.estop_state ≡ EstopState.run)
          × (n' : Nav F W) × (n'.order ≡ n.order)
          × (n'.rest ≡ n.rest)
          × ((estop_control b e n pcmd).motion ≡ b.run_control n' pcmd)
  unfolding estop_control
  estop_control-Runs e n pcmd =
      let event = (estop_event e.pending_event n.order.behavior).0 in
      let pending = (estop_event e.pending_event n.order.behavior).1 in
      let next = (estop_transition event e.estop_state).1 in
      let same = publish-keeps e.estop_state next n in
      elim (next_cycle-Runs event e.estop_state pending n pcmd) [
        | inl h ↦ inl h
        | inr (runs, m) ↦
            inr (runs, with_flags true true (publish e.estop_state next n), same.0, same.1, m)
      ]

  -- Cycles that follow one another. Between two of them anything may change but the state in the
  -- message; no order is Suspend.
  pub data Later (c : Cycle F W) : Cycle F W → Type 0 where
    here : Later c c
    next :
        {d : Cycle F W}
        → Later c d
        → (n : Nav F W) → n.navdata.estop ≡ d.motion.nav.navdata.estop
        → n.order.behavior ≢ Behavior.suspend
        → (pcmd : PilotCommand F) → Later c (estop_control b d.estop n pcmd)

  -- The causes of an end: a run that failed, or the order to abort or quit.
  abbrev pub Ends : NavEstopEvent → Behavior → Type 0
  Ends pending behavior =
      (pending ≡ NavEstopEvent.abort)
      ⊎ ((pending ≡ NavEstopEvent.none)
          × ((behavior ≡ Behavior.abort) ⊎ (behavior ≡ Behavior.quit)))

  ends-event :
      (pending : NavEstopEvent) (behavior : Behavior)
      → Ends pending behavior
      → ((estop_event pending behavior).1 ≡ NavEstopEvent.none)
        × (((estop_event pending behavior).0 ≡ NavEstopEvent.abort)
            ⊎ ((estop_event pending behavior).0 ≡ NavEstopEvent.quit))
  unfolding estop_event event_of
  ends-event pending behavior h = ground arith

  ends-Disabled :
      (event : NavEstopEvent) (s : EstopState) (n : Nav F W) (pcmd : PilotCommand F)
      → (event ≡ NavEstopEvent.abort) ⊎ (event ≡ NavEstopEvent.quit)
      → n.navdata.estop ≡ s
      → Disabled (next_cycle event s NavEstopEvent.none n pcmd)
  unfolding estop_transition estop_action
  ends-Disabled NavEstopEvent.abort EstopState.pause n pcmd h k = ground arith
  ends-Disabled _ _ n pcmd h k = ground arith

  done-Disabled :
      (behavior : Behavior) (n : Nav F W) (pcmd : PilotCommand F)
      → behavior ≢ Behavior.suspend
      → n.navdata.estop ≡ EstopState.done
      → Disabled (next_cycle (event_of behavior) EstopState.done NavEstopEvent.none n pcmd)
  unfolding estop_transition estop_action event_of
  done-Disabled Behavior.abort n pcmd h k = ground arith
  done-Disabled _ n pcmd h k = ground arith

  first-Disabled :
      (e : Estop) (n : Nav F W) (pcmd : PilotCommand F)
      → n.navdata.estop ≡ e.estop_state
      → Ends e.pending_event n.order.behavior
      → Disabled (estop_control b e n pcmd)
  unfolding estop_control
  first-Disabled e n pcmd h k =
      let event = ends-event e.pending_event n.order.behavior k in
      rw (event.0) (
        ends-Disabled (estop_event e.pending_event n.order.behavior).0 e.estop_state n pcmd event.1
          h)

  next-Disabled :
      (d : Cycle F W) (n : Nav F W) (pcmd : PilotCommand F)
      → Disabled d
      → n.navdata.estop ≡ d.motion.nav.navdata.estop
      → n.order.behavior ≢ Behavior.suspend
      → Disabled (estop_control b d.estop n pcmd)
  unfolding estop_control estop_event
  next-Disabled d n pcmd h k l =
      rw (h.idle, h.is_done) (done-Disabled n.order.behavior n pcmd l (k ∙ h.shown))

  -- Once a failure is pending, or Abort or Quit is ordered with nothing pending, the E-stop controller is in
  -- Done from that cycle on and halts the vehicle in each, whatever else is ordered but Suspend.
  pub Later-Disabled :
      (e : Estop) (n : Nav F W) (pcmd : PilotCommand F)
      → n.navdata.estop ≡ e.estop_state
      → Ends e.pending_event n.order.behavior
      → {d : Cycle F W} → Later (estop_control b e n pcmd) d
      → Disabled d
  Later-Disabled e n pcmd h k here = first-Disabled e n pcmd h k
  Later-Disabled e n pcmd h k (next {d} before n' shown order pcmd') =
      next-Disabled d n' pcmd' (Later-Disabled e n pcmd h k before) shown order
