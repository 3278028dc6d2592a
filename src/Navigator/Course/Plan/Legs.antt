-- ===== src/Navigator/Course/Plan/Legs.antt =====
-- The new plan that find_travel_lane of art_nav/src/navigator/course.cc makes.
use utexas_art_ros_pkg.Base.{
  ℕ, zero, suc, ◌+◌, ◌<◌, ◌≡◌, refl, sym, ap, ◌∙◌, ◌⊎◌, inl, inr, true, false≢true, List, [], All,
  All-mono, All-Memᴰ, if_elim, arith,
}
use mathlib.Core.List.{Memᴰ}
use utexas_art_ros_pkg.Numeric.{Floats}
use utexas_art_ros_pkg.RoadMap.Element.{id_ne}
use utexas_art_ros_pkg.Messages.{Order}
use utexas_art_ros_pkg.Lanes.Poly.{Poly}
use utexas_art_ros_pkg.Lanes.Select.Kept.{
  add_polys_for_waypts-All, add_polys_for_waypts-keeps, add_polys_for_waypts-nil,
}
use utexas_art_ros_pkg.Navigator.Course.{waypt, waypt_id}
use utexas_art_ros_pkg.Navigator.Course.Plan.{add_legs, new_plan}

module _ {F : Type 0} ⦃fl : Floats F⦄ where
  -- A polygon of the map that contains one of the first five way-points, or leads to it from the
  -- way-point before.
  abbrev pub OnWay : Order F → List (Poly F) → Poly F → Type 0
  OnWay o polygons p =
      Memᴰ p polygons
      × (i : ℕ) × (i < 5)
      × (p.end_way ≡ waypt_id i o)
      × ((p.start_way ≡ waypt_id i o) ⊎ (j : ℕ) × (i ≡ suc j) × (p.start_way ≡ waypt_id j o))

  add_legs-All :
      (rounds i : ℕ) (o : Order F) (polygons plan : List (Poly F))
      → i + rounds < 5
      → All (OnWay o polygons) plan
      → All (OnWay o polygons) (add_legs rounds i o polygons plan)
  unfolding add_legs
  add_legs-All zero i o polygons plan h a = a
  add_legs-All (suc rounds) i o polygons plan h a =
      let leg =
        if_elim (All (OnWay o polygons)) (id_ne (waypt_id i o) (waypt_id (suc i) o))
          (λ _.
            add_polys_for_waypts-All (OnWay o polygons) polygons plan _ _
              (All-mono _ _
                (λ p m l. (
                  m,
                  suc i,
                  omega arith,
                  l.1,
                  elim l.0 [ inl e ↦ inr (i, refl, e) | inr e ↦ inl e ],
                ))
                polygons (All-Memᴰ polygons))
              a)
          (λ _. a) in
      if_elim (All (OnWay o polygons)) (waypt (suc i) o).is_perimeter (λ _. leg)
        (λ _. add_legs-All rounds (suc i) o polygons _ (omega arith) leg)

  add_legs-keeps :
      (rounds i : ℕ) (o : Order F) (polygons plan : List (Poly F)) (q : Poly F)
      → Memᴰ q plan
      → Memᴰ q (add_legs rounds i o polygons plan)
  unfolding add_legs
  add_legs-keeps zero i o polygons plan q m = m
  add_legs-keeps (suc rounds) i o polygons plan q m =
      let leg =
        if_elim (Memᴰ q) (id_ne (waypt_id i o) (waypt_id (suc i) o))
          (λ _. add_polys_for_waypts-keeps polygons plan _ _ q (inl m)) (λ _. m) in
      if_elim (Memᴰ q) (waypt (suc i) o).is_perimeter (λ _. leg)
        (λ _. add_legs-keeps rounds (suc i) o polygons _ q leg)

  pub new_plan-All :
      (o : Order F) (polygons : List (Poly F)) → All (OnWay o polygons) (new_plan o polygons)
  unfolding new_plan
  new_plan-All o polygons = add_legs-All 4 0 o polygons _ (omega arith) (
      add_polys_for_waypts-All (OnWay o polygons) polygons [] _ _
        (All-mono _ _
          (λ p m l. (m, 0, omega arith, l.1, elim l.0 [ inl e ↦ inl e | inr e ↦ inl e ])) polygons
          (All-Memᴰ polygons))
        tt)

  -- the way to the first way-point ahead
  pub new_plan-leads :
      (o : Order F) (polygons : List (Poly F)) (q : Poly F)
      → Memᴰ q polygons
      → id_ne (waypt_id 0 o) (waypt_id 1 o) ≡ true
      → q.start_way ≡ waypt_id 0 o
      → q.end_way ≡ waypt_id 1 o
      → Memᴰ q (new_plan o polygons)
  unfolding new_plan add_legs
  new_plan-leads o polygons q m ne start stop =
      let leg =
        if_elim (Memᴰ q) (id_ne (waypt_id 0 o) (waypt_id 1 o))
          (λ _. add_polys_for_waypts-keeps polygons _ _ _ q (inr (m, ne, start, stop)))
          (λ f. absurd (false≢true (sym f ∙ ne))) in
      if_elim (Memᴰ q) (waypt 1 o).is_perimeter (λ _. leg)
        (λ _. add_legs-keeps 3 1 o polygons _ q leg)

  add_legs-nil : (rounds i : ℕ) (o : Order F) → add_legs rounds i o [] [] ≡ []
  unfolding add_legs
  add_legs-nil zero i o = refl
  add_legs-nil (suc rounds) i o =
      let leg =
        if_elim (λ (l : List (Poly F)). l ≡ []) (id_ne (waypt_id i o) (waypt_id (suc i) o))
          (λ _. add_polys_for_waypts-nil (waypt_id i o) (waypt_id (suc i) o)) (λ _. refl) in
      if_elim (λ (l : List (Poly F)). l ≡ []) (waypt (suc i) o).is_perimeter (λ _. leg)
        (λ _. ap (λ l. add_legs rounds (suc i) o [] l) leg ∙ add_legs-nil rounds (suc i) o)

  pub new_plan-nil : (o : Order F) → new_plan o [] ≡ []
  unfolding new_plan
  new_plan-nil o =
      ap (add_legs 4 0 o []) (add_polys_for_waypts-nil (waypt_id 0 o) (waypt_id 0 o))
      ∙ add_legs-nil 4 0 o
