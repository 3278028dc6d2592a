-- ===== src/RoadMap/WayPoint.antt =====
-- Way-point nodes and edges, classes WayPointNode and WayPointEdge of
-- art_map/include/art_map/types.h, their coordinates (art_map/include/art_map/coordinates.h),
-- and the WayPoint message (art_msgs/msg/WayPoint.msg).
pub mod Message
use utexas_art_ros_pkg.Base.{ℕ, ◌≡◌, Bool, true, false, ℤ, pos, negsuc}
use utexas_art_ros_pkg.Numeric.{Floats}
use utexas_art_ros_pkg.RoadMap.Element.{ElementId, MapId, null_id, element_id, to_map_id}

pub data LaneMarking : Type 0 where
  double_yellow solid_yellow solid_white broken_white undefined : LaneMarking

pub record LatLong (F : Type 0) : Type 0 where
  pub latitude : F
  pub longitude : F

pub record MapXy (F : Type 0) : Type 0 where
  pub x : F
  pub y : F

-- `index` is a `uint16_t`, `checkpoint_id` an `int`.
pub record WayPointNode (F : Type 0) : Type 0 where
  pub ll : LatLong F
  pub map : MapXy F
  pub id : ElementId
  pub index : ℕ
  pub is_entry : Bool
  pub is_exit : Bool
  pub is_goal : Bool
  pub is_lane_change : Bool
  pub is_spot : Bool
  pub is_stop : Bool
  pub is_perimeter : Bool
  pub checkpoint_id : ℤ
  pub lane_width : F

-- The indices are `uint16_t`.
pub record WayPointEdge (F : Type 0) : Type 0 where
  pub startnode_index : ℕ
  pub endnode_index : ℕ
  pub distance : F
  pub speed_max : F
  pub speed_min : F
  pub is_exit : Bool
  pub blocked : Bool
  pub is_implicit : Bool
  pub left_boundary : LaneMarking
  pub right_boundary : LaneMarking

pub record WayPoint (F : Type 0) : Type 0 where
  pub latitude : F
  pub longitude : F
  pub mapxy : MapXy F
  pub id : MapId
  pub index : ℕ
  pub is_entry : Bool
  pub is_exit : Bool
  pub is_goal : Bool
  pub is_lane_change : Bool
  pub is_spot : Bool
  pub is_stop : Bool
  pub is_perimeter : Bool
  pub checkpoint_id : ℤ
  pub lane_width : F

module _ {F : Type 0} where
  -- WayPointNode::toWayPoint; a message begins with its flags false.
  unfoldable pub to_way_point : WayPointNode F → WayPoint F
  to_way_point n = record {
    latitude = n.ll.latitude;
    longitude = n.ll.longitude;
    mapxy = n.map;
    id = to_map_id n.id;
    index = n.index;
    is_entry = n.is_entry;
    is_exit = n.is_exit;
    is_goal = n.is_goal;
    is_lane_change = false;
    is_spot = n.is_spot;
    is_stop = false;
    is_perimeter = n.is_perimeter;
    checkpoint_id = n.checkpoint_id;
    lane_width = n.lane_width;
  }

  -- WayPointNode(art_msgs::WayPoint) over memory with the contents `old`: the flags, the
  -- checkpoint and the lane width are assigned to themselves.
  unfoldable pub of_way_point : WayPointNode F → WayPoint F → WayPointNode F
  of_way_point old wp = record old {
    ll = record { latitude = wp.latitude; longitude = wp.longitude };
    map = wp.mapxy;
    id = element_id wp.id;
    index = wp.index;
  }

  -- WayPointEdge::reverse
  unfoldable pub reverse : WayPointEdge F → WayPointEdge F
  reverse e = record e {
    startnode_index = e.endnode_index;
    endnode_index = e.startnode_index;
    left_boundary = e.right_boundary;
    right_boundary = e.left_boundary;
  }

module _ {F : Type 0} ⦃fl : Floats F⦄ where
  -- WayPointEdge::clear, and so WayPointEdge()
  unfoldable pub null_edge : WayPointEdge F
  null_edge = record {
    startnode_index = 0;
    endnode_index = 0;
    distance = fl.of_int (negsuc 0);
    speed_max = fl.of_int (pos 0);
    speed_min = fl.of_int (pos 0);
    is_exit = false;
    blocked = false;
    is_implicit = false;
    left_boundary = undefined;
    right_boundary = undefined;
  }

  -- Euclidean::DistanceTo(MapXY, MapXY)
  unfoldable pub distance_to : MapXy F → MapXy F → F
  distance_to p1 p2 =
      let x = fl.fsub p1.x p2.x in
      let y = fl.fsub p1.y p2.y in fl.fsqrt (fl.fadd (fl.fmul x x) (fl.fmul y y))
