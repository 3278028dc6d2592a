-- ===== src/Observers/Quads.antt =====
-- Operations on the quadrilaterals of lane messages: art_observers/src/observers/QuadrilateralOps.cc,
-- its header, and getObstaclesInLane of art_observers/src/observers/observer.cc.
pub mod InLane
use utexas_art_ros_pkg.Base.{
  ℕ, zero, suc, Bool, true, false, ◌&&◌, not, List, [], ◌∷◌, ◌++◌, if◌then◌else◌, ◌==◌, length, set,
  take, ℤ, pos, ltb_ℤ,
}
use utexas_art_ros_pkg.Numeric.{Floats, lte, gte}
use utexas_art_ros_pkg.RoadMap.WayPoint.{MapXy}
use utexas_art_ros_pkg.Lanes.Geometry.{MapPose}
use utexas_art_ros_pkg.Lanes.Poly.{toggle, crosses}
use utexas_art_ros_pkg.Lanes.Message.{ArtQuadrilateral, of_point32, get_polys, get_lanes}
use utexas_art_ros_pkg.Lanes.Adjacent.{get_lane_dir}

-- the four vertices of a quadrilateral
pub record Corners (F : Type 0) : Type 0 where
  pub p1 : MapXy F
  pub p2 : MapXy F
  pub p3 : MapXy F
  pub p4 : MapXy F

module _ {F : Type 0} where
  unfoldable pub compare_seg_lane : ArtQuadrilateral F → ArtQuadrilateral F → Bool
  compare_seg_lane base comp =
      base.start_way.seg == comp.start_way.seg
      && base.start_way.lane == comp.start_way.lane
      && base.end_way.seg == comp.end_way.seg
      && base.end_way.lane == comp.end_way.lane
      && not comp.is_transition

  unfoldable pub compare_forward_seg_lane : ArtQuadrilateral F → ArtQuadrilateral F → Bool
  compare_forward_seg_lane base comp =
      ltb_ℤ base.poly_id comp.poly_id
      && base.start_way.seg == comp.start_way.seg
      && base.start_way.lane == comp.start_way.lane
      && base.end_way.seg == comp.end_way.seg
      && base.end_way.lane == comp.end_way.lane
      && not comp.is_transition

  unfoldable pub compare_backward_seg_lane : ArtQuadrilateral F → ArtQuadrilateral F → Bool
  compare_backward_seg_lane base comp =
      ltb_ℤ comp.poly_id base.poly_id
      && base.start_way.seg == comp.start_way.seg
      && base.start_way.lane == comp.start_way.lane
      && base.end_way.seg == comp.end_way.seg
      && base.end_way.lane == comp.end_way.lane
      && not comp.is_transition

  -- the new vector that `resize` makes
  unfoldable pub blanks : ArtQuadrilateral F → ℕ → List (ArtQuadrilateral F)
  blanks blank zero = []
  blanks blank (suc n) = blank ∷ blanks blank n

  -- The loop of filterLanes, which pushes on `filtered`.
  unfoldable pub filter_from :
      (ArtQuadrilateral F → Bool)
      → List (ArtQuadrilateral F)
      → List (ArtQuadrilateral F)
      → List (ArtQuadrilateral F)
  filter_from test [] filtered = filtered
  filter_from test (q ∷ qs) filtered =
      filter_from test qs (if test q then filtered ++ (q ∷ []) else filtered)

  unfoldable pub filter_lanes :
      ArtQuadrilateral F
      → List (ArtQuadrilateral F)
      → (ArtQuadrilateral F → ArtQuadrilateral F → Bool)
      → List (ArtQuadrilateral F)
  unfolding filter_from
  filter_lanes base_quad quads test = filter_from (test base_quad) quads []

module _ {F : Type 0} ⦃fl : Floats F⦄ where
  abbrev pub corners : ArtQuadrilateral F → Corners F
  corners q = record {
    p1 = of_point32 q.points.bottom_left;
    p2 = of_point32 q.points.top_left;
    p3 = of_point32 q.points.top_right;
    p4 = of_point32 q.points.bottom_right;
  }

  -- pointInHull
  unfoldable pub in_corners : MapXy F → Corners F → Bool
  unfolding lte gte
  in_corners pt c =
      let minx = fl.fmin (fl.fmin (fl.fmin c.p1.x c.p2.x) c.p3.x) c.p4.x in
      let miny = fl.fmin (fl.fmin (fl.fmin c.p1.y c.p2.y) c.p3.y) c.p4.y in
      let maxx = fl.fmax (fl.fmax (fl.fmax c.p1.x c.p2.x) c.p3.x) c.p4.x in
      let maxy = fl.fmax (fl.fmax (fl.fmax c.p1.y c.p2.y) c.p3.y) c.p4.y in
      gte pt.x minx && lte pt.x maxx && gte pt.y miny && lte pt.y maxy

  -- the body that both quick tests share
  unfoldable pub odd_in_corners : MapXy F → Corners F → Bool
  unfolding in_corners crosses
  odd_in_corners pt c =
      let odd = toggle (crosses pt c.p4 c.p1) (
        toggle (crosses pt c.p3 c.p4)
          (toggle (crosses pt c.p2 c.p3) (toggle (crosses pt c.p1 c.p2) false))) in
      if not (in_corners pt c) then false else odd

  unfoldable pub quick_point_in_poly : MapXy F → ArtQuadrilateral F → Bool
  unfolding odd_in_corners
  quick_point_in_poly pt q = odd_in_corners pt (corners q)

  -- The ratio reduction of a pair of coordinates: the second one starts from the new first one.
  abbrev pub reduce : F → F → F → F × F
  reduce diff a b =
      let c = fl.fadd a (fl.fmul (fl.fsub b a) diff) in
      (c, fl.fadd c (fl.fmul (fl.fsub b c) (fl.fsub (fl.of_int (pos 1)) diff)))

  unfoldable pub quick_point_in_poly_ratio : MapXy F → ArtQuadrilateral F → F → Bool
  unfolding odd_in_corners
  quick_point_in_poly_ratio pt q ratio =
      let diff = fl.fdiv (fl.fsub (fl.of_int (pos 1)) ratio) (fl.of_int (pos 2)) in
      let c = corners q in
      let (x1, x4) = reduce diff c.p1.x c.p4.x in
      let (y1, y4) = reduce diff c.p1.y c.p4.y in
      let (x2, x3) = reduce diff c.p2.x c.p3.x in
      let (y2, y3) = reduce diff c.p2.y c.p3.y in
      odd_in_corners pt (record {
        p1 = record { x = x1; y = y1 };
        p2 = record { x = x2; y = y2 };
        p3 = record { x = x3; y = y3 };
        p4 = record { x = x4; y = y4 };
      })

  -- the square of the distance to the midpoint, of `double`s, in a `float`
  abbrev pub square_dist : MapXy F → ArtQuadrilateral F → F
  square_dist pt q =
      let dx = fl.dsub q.midpoint.x pt.x in
      let dy = fl.dsub q.midpoint.y pt.y in fl.to_float (fl.dadd (fl.dmul dx dx) (fl.dmul dy dy))

  -- The quick check that skips a quadrilateral.
  abbrev pub far : MapXy F → ArtQuadrilateral F → Bool
  far pt q = fl.lt (fl.of_int (pos 16)) (square_dist pt q)

  -- the literal 0.6, a `float` parameter
  abbrev pub inner_ratio : F
  inner_ratio = fl.to_float (fl.ddiv (fl.of_int (pos 6)) (fl.of_int (pos 10)))

  -- The inner loop of getObstaclesInLane, with `inside` so far; it breaks when that is true.
  unfoldable pub in_lane_from : MapXy F → List (ArtQuadrilateral F) → Bool → Bool
  unfolding quick_point_in_poly_ratio
  in_lane_from pt [] inside = inside
  in_lane_from pt (q ∷ qs) inside =
      let now = quick_point_in_poly_ratio pt q inner_ratio in
      let skipped = in_lane_from pt qs inside in
      let rest = in_lane_from pt qs now in if far pt q then skipped else if now then true else rest

  abbrev pub midpoint_of : ArtQuadrilateral F → MapXy F
  midpoint_of q = record { x = fl.to_float q.midpoint.x; y = fl.to_float q.midpoint.y }

  -- The outer loop, which writes into a vector of the size of `obstacles`, at `counter`.
  unfoldable pub in_lane_into :
      List (ArtQuadrilateral F)
      → List (ArtQuadrilateral F)
      → ℕ
      → List (ArtQuadrilateral F)
      → ℕ × List (ArtQuadrilateral F)
  unfolding in_lane_from
  in_lane_into lane_quads [] counter out = (counter, out)
  in_lane_into lane_quads (o ∷ os) counter out =
      let inside = in_lane_from (midpoint_of o) lane_quads false in
      in_lane_into lane_quads os (if inside then suc counter else counter)
        (if inside then set out counter o else out)

  -- `blank` is what `resize` fills a vector with.
  unfoldable pub get_obstacles_in_lane :
      ArtQuadrilateral F
      → List (ArtQuadrilateral F)
      → List (ArtQuadrilateral F)
      → List (ArtQuadrilateral F)
  unfolding in_lane_into blanks
  get_obstacles_in_lane blank obstacles lane_quads =
      let (counter, out) = in_lane_into lane_quads obstacles 0 (blanks blank (length obstacles)) in
      take counter out

  unfoldable pub filter_adjacent_lanes :
      MapPose F → List (ArtQuadrilateral F) → ℤ → List (ArtQuadrilateral F)
  unfolding get_polys get_lanes get_lane_dir
  filter_adjacent_lanes pose quads lane =
      get_lanes (get_lane_dir (get_polys quads) (pos 0) lane pose)
