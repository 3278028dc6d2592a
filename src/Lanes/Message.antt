-- ===== src/Lanes/Message.antt =====
-- Lane polygons in messages: poly(ArtQuadrilateral) and poly::toMsg of art_map/include/art_map/PolyOps.h,
-- GetPolys and GetLanes of art_map/src/lib/PolyOps.cc. A lane marking is an enumeration in
-- the program and a number in the message, the same in both; it is kept as the enumeration.
use utexas_art_ros_pkg.Base.{Bool, List, map, ℤ, pos}
use utexas_art_ros_pkg.Numeric.{Floats}
use utexas_art_ros_pkg.RoadMap.Element.{MapId, element_id, to_map_id}
use utexas_art_ros_pkg.RoadMap.WayPoint.{MapXy, LaneMarking}
use utexas_art_ros_pkg.Lanes.Poly.{Poly}

-- geometry_msgs/Point, of `double`s, and Point32, of `float`s
pub record Point (F : Type 0) : Type 0 where
  pub x : F
  pub y : F
  pub z : F

-- The points of `poly`, in the order of the message. That a message has all four, which the code does
-- not check, is assumed.
pub record Vertices (F : Type 0) : Type 0 where
  pub bottom_left : Point F
  pub top_left : Point F
  pub top_right : Point F
  pub bottom_right : Point F

-- art_msgs/msg/ArtQuadrilateral.msg
pub record ArtQuadrilateral (F : Type 0) : Type 0 where
  pub points : Vertices F
  pub midpoint : Point F
  pub heading : F
  pub length : F
  pub poly_id : ℤ
  pub is_stop : Bool
  pub is_transition : Bool
  pub contains_way : Bool
  pub start_way : MapId
  pub end_way : MapId
  pub left_boundary : LaneMarking
  pub right_boundary : LaneMarking

module _ {F : Type 0} ⦃fl : Floats F⦄ where
  -- MapXY(Point32), and MapXY(Point) which rounds
  abbrev pub of_point32 : Point F → MapXy F
  of_point32 pt = record { x = pt.x; y = pt.y }

  abbrev pub of_point : Point F → MapXy F
  of_point pt = record { x = fl.to_float pt.x; y = fl.to_float pt.y }

  -- both functions MapXY::toMsg
  abbrev pub to_point : MapXy F → Point F
  to_point p = record { x = p.x; y = p.y; z = fl.of_int (pos 0) }

  unfoldable pub of_quadrilateral : ArtQuadrilateral F → Poly F
  of_quadrilateral msg = record {
    p1 = of_point32 msg.points.bottom_left;
    p2 = of_point32 msg.points.top_left;
    p3 = of_point32 msg.points.top_right;
    p4 = of_point32 msg.points.bottom_right;
    heading = msg.heading;
    midpoint = of_point msg.midpoint;
    length = msg.length;
    poly_id = msg.poly_id;
    is_stop = msg.is_stop;
    is_transition = msg.is_transition;
    contains_way = msg.contains_way;
    start_way = element_id msg.start_way;
    end_way = element_id msg.end_way;
    left_boundary = msg.left_boundary;
    right_boundary = msg.right_boundary;
  }

  unfoldable pub to_quadrilateral : Poly F → ArtQuadrilateral F
  to_quadrilateral p = record {
    points = record {
      bottom_left = to_point p.p1;
      top_left = to_point p.p2;
      top_right = to_point p.p3;
      bottom_right = to_point p.p4;
    };
    midpoint = to_point p.midpoint;
    heading = p.heading;
    length = p.length;
    poly_id = p.poly_id;
    is_stop = p.is_stop;
    is_transition = p.is_transition;
    contains_way = p.contains_way;
    start_way = to_map_id p.start_way;
    end_way = to_map_id p.end_way;
    left_boundary = p.left_boundary;
    right_boundary = p.right_boundary;
  }

  unfoldable pub get_polys : List (ArtQuadrilateral F) → List (Poly F)
  unfolding of_quadrilateral
  get_polys lanes = map of_quadrilateral lanes

  unfoldable pub get_lanes : List (Poly F) → List (ArtQuadrilateral F)
  unfolding to_quadrilateral
  get_lanes polys = map to_quadrilateral polys
