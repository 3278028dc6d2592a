-- ===== src/Navigator.antt =====
-- The navigator's top level, art_nav/src/navigator.
pub mod State
pub mod Course
pub mod Obstacle
pub mod Road
pub mod Run
pub mod Stop
pub mod Curves
pub mod StopLine
pub mod Estop
