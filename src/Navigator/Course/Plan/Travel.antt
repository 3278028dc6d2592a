-- ===== src/Navigator/Course/Plan/Travel.antt =====
-- What find_travel_lane of art_nav/src/navigator/course.cc plans.
use utexas_art_ros_pkg.Base.{
  ◌≡◌, refl, sym, ap, subst, ◌∙◌, inl, inr, Bool, true, false, not, Bool-cases, false≢true, List,
  [], ◌∷◌, Option-cases, null, All, if_elim, arith,
}
use mathlib.Core.List.{Memᴰ}
use utexas_art_ros_pkg.Numeric.{Floats}
use utexas_art_ros_pkg.RoadMap.Element.{ElementId, id_ne, id_eq_iff}
use utexas_art_ros_pkg.RoadMap.Element.Order.{id_ne-eq-not}
use utexas_art_ros_pkg.Messages.{Order}
use utexas_art_ros_pkg.Lanes.Poly.{Poly}
use utexas_art_ros_pkg.Lanes.Adjacent.{at_index}
use utexas_art_ros_pkg.Navigator.Course.{waypt_id, order_ids, any_ne}
use utexas_art_ros_pkg.Navigator.Course.Plan.{
  Lanes, no_aim, plan_valid, set_plan_waypts, find_aim_polygon, new_plan, take_aim,
  find_travel_lane,
}
use utexas_art_ros_pkg.Navigator.Course.Plan.Legs.{
  OnWay, new_plan-All, new_plan-leads, new_plan-nil,
}

any_ne_refl : (ids : List ElementId) → any_ne ids ids ≡ false
unfolding any_ne
any_ne_refl [] = refl
any_ne_refl (a ∷ ids) = ground (arith, id_ne-eq-not a a, id_eq_iff a a, any_ne_refl ids)

module _ {F : Type 0} ⦃fl : Floats F⦄ where
  take_aim-keeps :
      (rejoin : Bool) (o : Order F) (s : Lanes F)
      → ((take_aim rejoin o s).plan ≡ s.plan)
        × ((take_aim rejoin o s).plan_waypt ≡ s.plan_waypt)
        × ((take_aim rejoin o s).polygons ≡ s.polygons)
        × ((take_aim rejoin o s).new_plan_lanes ≡ false)
  unfolding take_aim
  take_aim-keeps false o s = (refl, refl, refl, refl)
  take_aim-keeps true o s =
      let current : Lanes F = no_aim (record s { new_plan_lanes = false }) in
      elim (Option-cases (at_index current.plan (find_aim_polygon o current current.plan))) [
        | inl e ↦ rw e (refl, refl, refl, refl)
        | inr (p, e) ↦ rw e (refl, refl, refl, refl)
      ]

  valid_of :
      (o : Order F) (t : Lanes F)
      → t.plan_waypt ≡ order_ids o
      → t.new_plan_lanes ≡ false
      → plan_valid o t ≡ not (null t.plan)
  unfolding plan_valid
  valid_of o t e f = rw (e, any_ne_refl (order_ids o), f) (ground arith)

  valid_again :
      (o : Order F) (s t : Lanes F)
      → plan_valid o s ≡ true
      → t.plan_waypt ≡ s.plan_waypt
      → t.plan ≡ s.plan
      → t.new_plan_lanes ≡ false
      → plan_valid o t ≡ true
  unfolding plan_valid
  valid_again o s t v e f g = elim (Bool-cases (any_ne s.plan_waypt (order_ids o))) [
    | inl x ↦ absurd (false≢true (rw x at v))
    | inr x ↦ rw (e, x, f, g) (ground (arith, rw x at v))
  ]

  plan_valid_nonempty :
      (o : Order F) (s : Lanes F) → plan_valid o s ≡ true → not (null s.plan) ≡ true
  unfolding plan_valid
  plan_valid_nonempty o s v = elim (Bool-cases (any_ne s.plan_waypt (order_ids o))) [
    | inl x ↦ absurd (false≢true (rw x at v))
    | inr x ↦ ground (arith, rw x at v)
  ]

  -- what planning from `s` leaves
  record Planned (o : Order F) (s r : Lanes F) : Type 0 where
    kept : plan_valid o s ≡ true → (r.plan ≡ s.plan) × (plan_valid o r ≡ true)
    made :
        plan_valid o s ≡ false
        → (r.plan ≡ new_plan o s.polygons)
          × (r.polygons ≡ s.polygons)
          × (plan_valid o r ≡ not (null r.plan))

  take_aim-made :
      (rejoin : Bool) (o : Order F) (s t : Lanes F)
      → plan_valid o s ≡ false
      → t.plan ≡ new_plan o s.polygons
      → t.polygons ≡ s.polygons
      → t.plan_waypt ≡ order_ids o
      → Planned o s (take_aim rejoin o t)
  take_aim-made rejoin o s t v plan polygons waypts =
      let k = take_aim-keeps rejoin o t in
      record {
        kept = λ e. absurd (false≢true (sym v ∙ e));
        made =
            λ _. (k.0 ∙ plan, k.2 ∙ polygons, valid_of o (take_aim rejoin o t) (k.1 ∙ waypts) k.3);
      }

  null_nil : (ps : List (Poly F)) → null ps ≡ true → ps ≡ []
  null_nil [] e = refl
  null_nil (p ∷ ps) e = absurd (false≢true e)

  cleared-Planned :
      (o : Order F) (s : Lanes F)
      → plan_valid o s ≡ false
      → null s.polygons ≡ true
      → Planned o s (set_plan_waypts o (no_aim (record s { plan = [] })))
  unfolding set_plan_waypts plan_valid
  cleared-Planned o s v e = record {
    kept = λ f. absurd (false≢true (sym v ∙ f));
    made = λ _. (
      sym (ap (new_plan o) (null_nil s.polygons e) ∙ new_plan-nil o),
      refl,
      if_elim (λ (b : Bool). b ≡ false) (any_ne (order_ids o) (order_ids o)) (λ _. refl)
          (λ _. refl),
    );
  }

  find_travel_lane-Planned :
      (rejoin : Bool) (o : Order F) (s : Lanes F) → Planned o s (find_travel_lane rejoin o s)
  unfolding find_travel_lane set_plan_waypts
  find_travel_lane-Planned rejoin o s =
      if_elim (Planned o s) (plan_valid o s)
        (λ v.
          let k = take_aim-keeps rejoin o s in
          record {
            kept = λ _. (k.0, valid_again o s (take_aim rejoin o s) v k.1 k.0 k.3);
            made = λ e. absurd (false≢true (sym e ∙ v));
          })
        (λ v.
          if_elim (Planned o s) (null s.polygons) (λ e. cleared-Planned o s v e)
            (λ _.
              let cleared = set_plan_waypts o (no_aim (record s { plan = [] })) in
              take_aim-made rejoin o s (record cleared { plan = new_plan o s.polygons }) v refl refl
                refl))

  -- A plan that is valid is kept. In place of one that is not there comes a plan of polygons of
  -- the map, each of which contains one of the first five way-points of the order or leads to it
  -- from the way-point before; and if the first two way-points differ, no polygon of the map that
  -- leads from the one to the other is missing. The plan is valid then unless it is empty, and
  -- planning again for the same order changes nothing in it.
  pub find_travel_lane-Travels :
      (rejoin again : Bool) (o : Order F) (s : Lanes F)
      → (plan_valid o s ≡ true → (find_travel_lane rejoin o s).plan ≡ s.plan)
        × (plan_valid o s ≡ false → All (OnWay o s.polygons) (find_travel_lane rejoin o s).plan)
        × ((q : Poly F)
            → plan_valid o s ≡ false
            → Memᴰ q s.polygons
            → id_ne (waypt_id 0 o) (waypt_id 1 o) ≡ true
            → q.start_way ≡ waypt_id 0 o
            → q.end_way ≡ waypt_id 1 o
            → Memᴰ q (find_travel_lane rejoin o s).plan)
        × (plan_valid o (find_travel_lane rejoin o s)
            ≡ not (null (find_travel_lane rejoin o s).plan))
        × ((find_travel_lane again o (find_travel_lane rejoin o s)).plan
            ≡ (find_travel_lane rejoin o s).plan)
  find_travel_lane-Travels rejoin again o s =
      let r = find_travel_lane rejoin o s in
      let first = find_travel_lane-Planned rejoin o s in
      let second = find_travel_lane-Planned again o r in
      (
        λ v. (first.kept v).0,
        λ v. subst (All (OnWay o s.polygons)) (sym (first.made v).0) (new_plan-All o s.polygons),
        λ q v m ne start stop.
            subst (Memᴰ q) (sym (first.made v).0) (new_plan-leads o s.polygons q m ne start stop),
        elim (Bool-cases (plan_valid o s)) [
          | inl v ↦
              (first.kept v).1
              ∙ sym (ap (λ l. not (null l)) (first.kept v).0 ∙ plan_valid_nonempty o s v)
          | inr v ↦ (first.made v).2
        ],
        elim (Bool-cases (plan_valid o r)) [
          | inl w ↦ (second.kept w).0
          | inr w ↦ elim (Bool-cases (plan_valid o s)) [
            | inl v ↦ absurd (false≢true (sym w ∙ (first.kept v).1))
            | inr v ↦ (second.made w).0 ∙ (ap (new_plan o) (first.made v).1 ∙ sym (first.made v).0)
          ]
        ],
      )
