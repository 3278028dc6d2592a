-- ===== src/RoadMap.antt =====
-- The road map: identifiers, way-points and edges (art_map/include/art_map/types.h) and the
-- graph of them (art_map/src/lib/Graph.cc).
pub mod Element
pub mod WayPoint
pub mod Graph
