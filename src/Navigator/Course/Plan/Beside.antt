-- ===== src/Navigator/Course/Plan/Beside.antt =====
-- Where find_passing_lane of art_nav/src/navigator/course.cc sees a lane beside that of the vehicle.
use utexas_art_ros_pkg.Base.{
  ◌≡◌, ◌≢◌, ◌⊎◌, inl, inr, refl, sym, ap, ◌∙◌, false≢true, List, [], ◌∷◌, Option, none, some,
  if◌then◌else◌, Bool-cases, Option-cases, filter, take-length, length, pos, eqb_ℤ, eqb_ℤ_iff,
}
use utexas_art_ros_pkg.Numeric.{Floats}
use utexas_art_ros_pkg.RoadMap.Element.{ElementId}
use utexas_art_ros_pkg.RoadMap.WayPoint.{MapXy}
use utexas_art_ros_pkg.Lanes.Geometry.{normalize, pose_bearing}
use utexas_art_ros_pkg.Lanes.Poly.{Poly, lane_poly, left_of_poly, same_direction}
use utexas_art_ros_pkg.Lanes.Closest.{get_closest_poly}
use utexas_art_ros_pkg.Lanes.Closest.Within.{closest_poly}
use utexas_art_ros_pkg.Lanes.Select.{add_lane_polys, add_reverse_lane_polys}
use utexas_art_ros_pkg.Lanes.Select.Reverse.{backwards, push_matching-filter, push_reverse-filter}
use utexas_art_ros_pkg.Lanes.Adjacent.{at_index}
use utexas_art_ros_pkg.Navigator.Course.Plan.Passing.{Side, look_beside}

module _ {F : Type 0} ⦃fl : Floats F⦄ where
  -- the polygons of a lane, in the order of the map
  abbrev pub own : List (Poly F) → ElementId → List (Poly F)
  own polygons lane = filter (λ p. lane_poly p lane) polygons

  -- The lane's polygon closest to the way-point says on which side the lane is, and whether it goes the same
  -- way as the polygon of the vehicle; its polygons come in the direction of travel.
  pub record Seen (polygons : List (Poly F)) (pt : MapXy F) (cur : Poly F) (lane : ElementId)
      (polys : List (Poly F)) (s : Side) : Type 0 where
    pub numbered : lane.lane ≢ pos 0
    pub this : Poly F
    pub closest : at_index (own polygons lane) (get_closest_poly (own polygons lane) pt) ≡ some this
    pub to_left :
        s.is_left
        ≡ fl.lt
            (fl.of_int (pos 0))
            (pose_bearing (record { map = cur.midpoint; yaw = cur.heading }) this.midpoint)
    pub same_way :
        s.forward ≡ fl.lt (fl.fabs (normalize (fl.fsub cur.heading this.heading))) fl.half_pi
    pub in_order : polys ≡ (if s.forward then own polygons lane else backwards (own polygons lane))

  -- No lane is seen for the number 0 and for one with no polygons on the map.
  abbrev pub Beside :
      List (Poly F) → MapXy F → Poly F → ElementId → List (Poly F) → Option Side → Type 0
  Beside polygons pt cur lane polys none =
      ((lane.lane ≡ pos 0) ⊎ (own polygons lane ≡ [])) × (polys ≡ [])
  Beside polygons pt cur lane polys (some s) = Seen polygons pt cur lane polys s

  add_lane_polys-own :
      (polygons : List (Poly F)) (lane : ElementId)
      → add_lane_polys polygons [] lane ≡ own polygons lane
  unfolding add_lane_polys
  add_lane_polys-own polygons lane = push_matching-filter (λ p. lane_poly p lane) polygons []

  add_reverse_lane_polys-own :
      (polygons : List (Poly F)) (lane : ElementId)
      → add_reverse_lane_polys polygons [] lane ≡ backwards (own polygons lane)
  unfolding add_reverse_lane_polys
  add_reverse_lane_polys-own polygons lane =
      push_reverse-filter (λ p. lane_poly p lane) polygons (length polygons) []
      ∙ ap (λ ps. backwards (own ps lane)) (take-length polygons)

  -- the polygon closest to a point, of a list with one
  closest-none :
      (ps : List (Poly F)) (pt : MapXy F) → at_index ps (get_closest_poly ps pt) ≡ none → ps ≡ []
  closest-none [] pt h = refl
  closest-none (p ∷ ps) pt h = let (q, e) = closest_poly (p ∷ ps) pt refl in cc

  pub look_beside-Beside :
      (polygons : List (Poly F)) (pt : MapXy F) (cur : Poly F) (lane : ElementId)
      → Beside polygons pt cur lane
          (look_beside polygons pt cur lane).0
          (look_beside polygons pt cur lane).1
  unfolding look_beside left_of_poly same_direction
  look_beside-Beside polygons pt cur lane = elim (Bool-cases (eqb_ℤ lane.lane (pos 0))) [
    | inl zero_lane ↦
        rw (zero_lane, look_beside) (inl ((eqb_ℤ_iff lane.lane (pos 0)).0 zero_lane), refl)
    | inr other ↦
        let same = add_lane_polys-own polygons lane in
        let ps = own polygons lane in
        elim (Option-cases (at_index ps (get_closest_poly ps pt))) [
          | inl e ↦
              let gone = closest-none ps pt e in
              rw (other, same, e, look_beside) (inr gone, same ∙ gone)
          | inr (this, e) ↦
              rw (other, same, e, look_beside)
                (record {
                  numbered = λ z. false≢true (sym other ∙ (eqb_ℤ_iff lane.lane (pos 0)).1 z);
                  this = this;
                  closest = e;
                  to_left = refl;
                  same_way = refl;
                  in_order =
                      ap
                        (λ l.
                          if same_direction cur this fl.half_pi
                          then l
                          else add_reverse_lane_polys polygons [] lane)
                        same
                      ∙ ap (λ l. if same_direction cur this fl.half_pi then ps else l)
                          (add_reverse_lane_polys-own polygons lane);
                })
        ]
  ]
