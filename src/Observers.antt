-- ===== src/Observers.antt =====
-- The lane observers, package art_observers: the quadrilaterals of a lane, the four observers of the
-- nearest obstacle, and the node that feeds them.
pub mod Quads
pub mod Filters
pub mod Observer
pub mod Nearest
pub mod Adjacent
pub mod Node
