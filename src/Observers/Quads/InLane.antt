-- ===== src/Observers/Quads/InLane.antt =====
-- What getObstaclesInLane of art_observers/src/observers/observer.cc returns.
use mathlib.Core.Path.{fun_ext}
use utexas_art_ros_pkg.Base.{
  ℕ, zero, suc, ◌≤◌, ◌≡◌, refl, sym, ap, subst, ◌∙◌, Bool, true, false, Bool-cases, inl, inr, List,
  [], ◌∷◌, ◌++◌, append-nil, append_assoc, if◌then◌else◌, length, length-append, set, take, filter,
  arith,
}
use utexas_art_ros_pkg.Numeric.{Floats}
use utexas_art_ros_pkg.RoadMap.WayPoint.{MapXy}
use utexas_art_ros_pkg.Lanes.Message.{ArtQuadrilateral}
use utexas_art_ros_pkg.Observers.Quads.{
  blanks, quick_point_in_poly_ratio, far, inner_ratio, in_lane_from, midpoint_of, in_lane_into,
  get_obstacles_in_lane,
}

module _ {ℓ} {A : Type ℓ} where
  set-append :
      (xs : List A) (y v : A) (ys : List A)
      → set (xs ++ (y ∷ ys)) (length xs) v ≡ (xs ++ (v ∷ [])) ++ ys
  set-append [] y v ys = refl
  set-append (x ∷ xs) y v ys = ap (◌∷◌ x) (set-append xs y v ys)

  take-append : (xs ys : List A) → take (length xs) (xs ++ ys) ≡ xs
  take-append [] ys = refl
  take-append (x ∷ xs) ys = ap (◌∷◌ x) (take-append xs ys)

module _ {F : Type 0} ⦃fl : Floats F⦄ where
  -- whether a point lies in a polygon of the lane: one that is near, in its inner part
  abbrev pub lies_in : List (ArtQuadrilateral F) → MapXy F → Bool
  lies_in [] pt = false
  lies_in (q ∷ qs) pt =
      if far pt q
      then lies_in qs pt
      else if quick_point_in_poly_ratio pt q inner_ratio
      then true
      else lies_in qs pt

  in_lane_from-lies_in :
      (pt : MapXy F) (qs : List (ArtQuadrilateral F)) → in_lane_from pt qs false ≡ lies_in qs pt
  unfolding in_lane_from
  in_lane_from-lies_in pt [] = refl
  in_lane_from-lies_in pt (q ∷ qs) =
      elim (Bool-cases (quick_point_in_poly_ratio pt q inner_ratio)) [
        | inl t ↦ rw (t, in_lane_from-lies_in pt qs) refl
        | inr f ↦ rw (f, in_lane_from-lies_in pt qs) refl
      ]

  module _ (quads : List (ArtQuadrilateral F)) where
    abbrev kept : ArtQuadrilateral F → Bool
    kept o = in_lane_from (midpoint_of o) quads false

    -- the vector after some obstacles: those kept, and the rest of the blanks
    abbrev Filled :
        ArtQuadrilateral F → List (ArtQuadrilateral F) → ℕ × List (ArtQuadrilateral F) → Type 0
    Filled blank found r = (j : ℕ) × (r.0 ≡ length found) × (r.1 ≡ found ++ blanks blank j)

    in_lane_into-Filled :
        (blank : ArtQuadrilateral F) (os done : List (ArtQuadrilateral F)) (k counter : ℕ)
        (out : List (ArtQuadrilateral F))
        → length os ≤ k
        → counter ≡ length done
        → out ≡ done ++ blanks blank k
        → Filled blank (done ++ filter kept os) (in_lane_into quads os counter out)
    unfolding in_lane_into blanks
    in_lane_into-Filled blank [] done k counter out h c o =
        subst (λ xs. Filled blank xs (counter, out)) (sym (append-nil done)) (k, c, o)
    in_lane_into-Filled blank (o ∷ os) done zero counter out h c e = absurd (omega arith)
    in_lane_into-Filled blank (o ∷ os) done (suc k) counter out h c e = elim (Bool-cases (kept o)) [
      | inl t ↦
          rw (in_lane_into, t)
            (subst (λ xs. Filled blank xs (in_lane_into quads os (suc counter) (set out counter o)))
              (append_assoc done (o ∷ []) (filter kept os))
              (in_lane_into-Filled blank os (done ++ (o ∷ [])) k (suc counter) (set out counter o)
                (omega arith) (omega (arith, c, length-append done (o ∷ [])))
                (ap (λ i. set out i o) c
                  ∙ (ap (λ xs. set xs (length done) o) e
                      ∙ set-append done blank o (blanks blank k)))))
      | inr f ↦
          rw (in_lane_into, f)
            (in_lane_into-Filled blank os done (suc k) counter out (omega arith) c e)
    ]

  -- getObstaclesInLane returns the obstacles whose midpoint lies in a polygon of the lane, in their
  -- order and each as often as it was there, whatever the vector is first filled with.
  pub get_obstacles_in_lane-filter :
      (blank : ArtQuadrilateral F) (obstacles quads : List (ArtQuadrilateral F))
      → get_obstacles_in_lane blank obstacles quads
        ≡ filter (λ o. lies_in quads (midpoint_of o)) obstacles
  unfolding get_obstacles_in_lane
  get_obstacles_in_lane-filter blank obstacles quads =
      let n = length obstacles in
      let (j, count, out) =
        in_lane_into-Filled quads blank obstacles [] n 0 (blanks blank n) (omega arith) refl refl in
      let found = filter (kept quads) obstacles in
      ap (λ i. take i (in_lane_into quads obstacles 0 (blanks blank n)).1) count
      ∙ (ap (take (length found)) out
          ∙ (take-append found (blanks blank j)
              ∙ ap (λ p. filter p obstacles)
                  (fun_ext λ o. in_lane_from-lies_in (midpoint_of o) quads)))
