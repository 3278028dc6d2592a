-- ===== src/Commander.antt =====
-- The commander: it plans the route through the mission's checkpoints and orders the navigator
-- along it (art_nav/src/commander, art_nav/src/lib).
pub mod Route
pub mod Mission
pub mod Blockages
pub mod Search
pub mod State
pub mod Outcomes
pub mod Planning
pub mod Orders
pub mod Fsm
