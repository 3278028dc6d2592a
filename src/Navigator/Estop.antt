-- ===== src/Navigator/Estop.antt =====
-- The E-stop state machine of the navigator: class Estop of art_nav/src/navigator/estop.cc, with the
-- events of NavEstopEvent.h.
pub mod Halts
use utexas_art_ros_pkg.Base.{Bool, true, false, if◌then◌else◌}
use utexas_art_ros_pkg.Numeric.{Floats}
use utexas_art_ros_pkg.RoadMap.Element.{null_id, to_map_id}
use utexas_art_ros_pkg.Messages.{Behavior, EstopState}
use utexas_art_ros_pkg.Navigator.State.{
  Result, not_implemented, not_applicable, PilotCommand, Nav, Motion, halt,
}

pub data NavEstopEvent : Type 0 where
  abort pause quit run suspend none : NavEstopEvent

pub data EstopAction : Type 0 where
  action_error in_done in_pause in_run in_suspend to_abort to_done to_pause to_run to_suspend :
      EstopAction

pub record Estop : Type 0 where
  pub pending_event : NavEstopEvent
  pub estop_prev : EstopState
  pub estop_state : EstopState

-- The controller Run below this one: its control and reset.
pub record RunControl (F W : Type 0) : Type 0 where
  pub run_control : Nav F W → PilotCommand F → Motion F W
  pub run_reset : Nav F W → Nav F W

-- The table that the constructor fills; all its entries are added.
unfoldable pub estop_transition : NavEstopEvent → EstopState → EstopAction × EstopState
estop_transition NavEstopEvent.abort EstopState.pause = (to_abort, EstopState.done)
estop_transition NavEstopEvent.abort EstopState.run = (to_abort, EstopState.done)
estop_transition NavEstopEvent.abort EstopState.suspend = (to_abort, EstopState.done)
estop_transition NavEstopEvent.abort EstopState.done = (in_done, EstopState.done)
estop_transition NavEstopEvent.none EstopState.pause = (in_pause, EstopState.pause)
estop_transition NavEstopEvent.none EstopState.run = (in_run, EstopState.run)
estop_transition NavEstopEvent.none EstopState.suspend = (in_suspend, EstopState.suspend)
estop_transition NavEstopEvent.none EstopState.done = (in_done, EstopState.done)
estop_transition NavEstopEvent.pause EstopState.pause = (in_pause, EstopState.pause)
estop_transition NavEstopEvent.pause EstopState.run = (to_pause, EstopState.pause)
estop_transition NavEstopEvent.pause EstopState.suspend = (to_pause, EstopState.pause)
estop_transition NavEstopEvent.pause EstopState.done = (in_done, EstopState.done)
estop_transition NavEstopEvent.quit EstopState.pause = (to_done, EstopState.done)
estop_transition NavEstopEvent.quit EstopState.run = (to_done, EstopState.done)
estop_transition NavEstopEvent.quit EstopState.suspend = (to_done, EstopState.done)
estop_transition NavEstopEvent.quit EstopState.done = (in_done, EstopState.done)
estop_transition NavEstopEvent.run EstopState.pause = (to_run, EstopState.run)
estop_transition NavEstopEvent.run EstopState.run = (in_run, EstopState.run)
estop_transition NavEstopEvent.run EstopState.suspend = (to_run, EstopState.run)
estop_transition NavEstopEvent.run EstopState.done = (in_done, EstopState.done)
estop_transition NavEstopEvent.suspend EstopState.pause = (to_suspend, EstopState.suspend)
estop_transition NavEstopEvent.suspend EstopState.run = (to_suspend, EstopState.suspend)
estop_transition NavEstopEvent.suspend EstopState.suspend = (in_suspend, EstopState.suspend)
estop_transition NavEstopEvent.suspend EstopState.done = (to_suspend, EstopState.suspend)

-- the behavior of the order as an event
unfoldable pub event_of : Behavior → NavEstopEvent
event_of Behavior.abort = NavEstopEvent.abort
event_of Behavior.pause = NavEstopEvent.pause
event_of Behavior.quit = NavEstopEvent.quit
event_of Behavior.run = NavEstopEvent.run
event_of Behavior.suspend = NavEstopEvent.suspend
event_of Behavior.initialize = NavEstopEvent.none
event_of Behavior.go = NavEstopEvent.none
event_of Behavior.none = NavEstopEvent.none

-- the event, and what is pending after it
unfoldable pub estop_event : NavEstopEvent → Behavior → NavEstopEvent × NavEstopEvent
unfolding event_of
estop_event NavEstopEvent.none behavior = (event_of behavior, NavEstopEvent.none)
estop_event pending behavior = (pending, NavEstopEvent.none)

-- the controller in its initial state
abbrev pub reset_me : Estop → Estop
reset_me e = record e { estop_state = EstopState.pause; pending_event = NavEstopEvent.none }

-- the results of Run that end the mission
abbrev pub fails : Result → Bool
fails not_implemented = true
fails not_applicable = true
fails _ = false

-- What a cycle leaves and returns.
pub record Cycle (F W : Type 0) : Type 0 where
  pub estop : Estop
  pub motion : Motion F W

module _ {F W : Type 0} where
  abbrev pub with_flags : Bool → Bool → Nav F W → Nav F W
  with_flags flasher alarm n = record n {
    navdata = record (n.navdata) { flasher = flasher; alarm = alarm };
  }

  -- the next run begins with Initialize
  abbrev pub forget_waypt : Nav F W → Nav F W
  forget_waypt n = record n { navdata = record (n.navdata) { last_waypt = to_map_id null_id } }

  -- the state in the navigator's message follows; where it has not changed it is left alone
  abbrev pub publish : EstopState → EstopState → Nav F W → Nav F W
  publish EstopState.pause EstopState.pause n = n
  publish EstopState.run EstopState.run n = n
  publish EstopState.done EstopState.done n = n
  publish EstopState.suspend EstopState.suspend n = n
  publish _ next n = record n { navdata = record (n.navdata) { estop = next } }

module _ {F W : Type 0} ⦃fl : Floats F⦄ (b : RunControl F W) where
  abbrev pub stand : Estop → Nav F W → Cycle F W
  stand e n = record { estop = e; motion = halt n }

  abbrev pub action_in_run : Estop → Nav F W → PilotCommand F → Cycle F W
  action_in_run e n pcmd =
      let m = b.run_control (with_flags true true n) pcmd in
      record {
        estop = record e {
          pending_event = if fails m.result then NavEstopEvent.abort else e.pending_event;
        };
        motion = m;
      }

  unfoldable pub estop_action : EstopAction → Estop → Nav F W → PilotCommand F → Cycle F W
  estop_action action_error e n pcmd = record {
    estop = record e { pending_event = NavEstopEvent.abort };
    motion = record (halt n) { result = not_implemented };
  }
  estop_action in_done e n pcmd = stand e (with_flags false false n)
  estop_action in_pause e n pcmd = stand e (with_flags true false n)
  estop_action in_run e n pcmd = action_in_run e n pcmd
  estop_action in_suspend e n pcmd = stand e (with_flags true false n)
  estop_action to_abort e n pcmd = stand e (with_flags false false n)
  estop_action to_done e n pcmd = stand e (with_flags false false n)
  estop_action to_pause e n pcmd = stand e (with_flags true false n)
  estop_action to_run e n pcmd = action_in_run e n pcmd
  estop_action to_suspend e n pcmd = stand e (with_flags true false (forget_waypt n))

  -- Estop::control
  unfoldable pub estop_control : Estop → Nav F W → PilotCommand F → Cycle F W
  unfolding estop_event estop_transition estop_action
  estop_control e n pcmd =
      let (event, pending) = estop_event e.pending_event n.order.behavior in
      let (action, next) = estop_transition event e.estop_state in
      estop_action action
        (record { pending_event = pending; estop_prev = e.estop_state; estop_state = next })
        (publish e.estop_state next n) pcmd

  -- Estop::reset; Halt has nothing to reset
  unfoldable pub estop_reset : Estop → Nav F W → Estop × Nav F W
  estop_reset e n = (reset_me e, b.run_reset n)
