-- ===== src/Tests.antt =====
-- Runs at concrete inputs: a small road map, art_map and art_nav/src/commander, the navigator, the
-- observers, and the throttle of art_servo.
mod Sample
mod Vehicle
mod SearchRuns
mod MapRuns
mod GraphRuns
mod ObserverRuns
mod LaneRuns
mod CommanderRuns
mod Cruise
mod NavigatorRuns
mod StopRuns
mod CurveRuns
mod ServoRuns
