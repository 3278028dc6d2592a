-- ===== src/Lanes.antt =====
-- The polygons of the lanes (art_map/include/art_map/PolyOps.h and art_map/src/lib/PolyOps.cc) and
-- the coordinates that they stand on (art_map/include/art_map/coordinates.h).
pub mod Geometry
pub mod Poly
pub mod Message
pub mod Closest
pub mod Select
pub mod Along
pub mod Adjacent
pub mod Perimeter
