-- ===== src/Lanes/Select/Reverse.antt =====
-- The lists that AddLanePolys, AddReverseLanePolys and AddLanePolysEither of
-- art_map/src/lib/PolyOps.cc make.
use mathlib.Core.Option.{some-injective}
use utexas_art_ros_pkg.Base.{
  ℕ, zero, suc, ◌≡◌, refl, sym, ap, ◌∙◌, inl, inr, Bool, true, false, Bool-cases, List, [], ◌∷◌,
  ◌++◌, append-nil, append_assoc, none, some, Option-cases, filter, take, take-length, get_elem?,
  length, ℤ, pos, ltb_ℤ,
}
use utexas_art_ros_pkg.RoadMap.WayPoint.{WayPointNode}
use utexas_art_ros_pkg.Lanes.Poly.{Poly, lane_poly}
use utexas_art_ros_pkg.Lanes.Select.{
  push_matching, push_reverse, push_if, add_lane_polys, add_reverse_lane_polys,
  add_lane_polys_either,
}

module _ {ℓ} {A : Type ℓ} where
  -- the elements in the opposite order
  abbrev pub backwards : List A → List A
  backwards [] = []
  backwards (x ∷ xs) = backwards xs ++ (x ∷ [])

  backwards-append : (xs : List A) (y : A) → backwards (xs ++ (y ∷ [])) ≡ y ∷ backwards xs
  backwards-append [] y = refl
  backwards-append (x ∷ xs) y = ap (λ zs. zs ++ (x ∷ [])) (backwards-append xs y)

  take-suc :
      (xs : List A) (i : ℕ) (x : A)
      → get_elem? xs i ≡ some x
      → take (suc i) xs ≡ take i xs ++ (x ∷ [])
  take-suc [] i x e = cc
  take-suc (y ∷ xs) zero x e = ap (λ z. z ∷ []) (some-injective _ _ e)
  take-suc (y ∷ xs) (suc i) x e = ap (◌∷◌ y) (take-suc xs i x e)

  take-suc_none : (xs : List A) (i : ℕ) → get_elem? xs i ≡ none → take (suc i) xs ≡ take i xs
  take-suc_none [] zero e = refl
  take-suc_none [] (suc i) e = refl
  take-suc_none (y ∷ xs) zero e = cc
  take-suc_none (y ∷ xs) (suc i) e = ap (◌∷◌ y) (take-suc_none xs i e)

  filter-append :
      (test : A → Bool) (xs ys : List A) → filter test (xs ++ ys) ≡ filter test xs ++ filter test ys
  filter-append test [] ys = refl
  filter-append test (x ∷ xs) ys = elim (Bool-cases (test x)) [
    | inl e ↦ rw e (ap (◌∷◌ x) (filter-append test xs ys))
    | inr e ↦ rw e (filter-append test xs ys)
  ]

module _ {F : Type 0} where
  pub push_matching-filter :
      (test : Poly F → Bool) (ps to : List (Poly F))
      → push_matching test ps to ≡ to ++ filter test ps
  unfolding push_matching
  push_matching-filter test [] to = sym (append-nil to)
  push_matching-filter test (p ∷ ps) to = elim (Bool-cases (test p)) [
    | inl e ↦
        rw e (
          push_matching-filter test ps (to ++ (p ∷ [])) ∙ append_assoc to (p ∷ []) (filter test ps))
    | inr e ↦ rw e (push_matching-filter test ps to)
  ]

  pushed :
      (test : Poly F → Bool) (p : Poly F) (to rest : List (Poly F))
      → push_if (test p) p to ++ backwards rest ≡ to ++ backwards (rest ++ filter test (p ∷ []))
  pushed test p to rest = elim (Bool-cases (test p)) [
    | inl e ↦ rw (e, backwards-append rest p) (append_assoc to (p ∷ []) (backwards rest))
    | inr e ↦ rw (e, append-nil rest) refl
  ]

  -- the polygons below index `i`, from the last to the first
  pub push_reverse-filter :
      (test : Poly F → Bool) (ps : List (Poly F)) (i : ℕ) (to : List (Poly F))
      → push_reverse test ps i to ≡ to ++ backwards (filter test (take i ps))
  unfolding push_reverse
  push_reverse-filter test ps zero to = sym (append-nil to)
  push_reverse-filter test ps (suc i) to = elim (Option-cases (get_elem? ps i)) [
    | inl e ↦ rw (e, take-suc_none ps i e) (push_reverse-filter test ps i to)
    | inr (p, e) ↦
        rw (e, take-suc ps i p e, filter-append test (take i ps) (p ∷ []))
          (push_reverse-filter test ps i (push_if (test p) p to)
            ∙ pushed test p to (filter test (take i ps)))
  ]

  -- In the direction of travel the polygons of the lane of a way-point, and those alone, are added
  -- in the order of the list; against it they are added in the opposite order. What was in the
  -- destination stays before them.
  pub add_lane_polys_either-filter :
      (ps to : List (Poly F)) (waypt : WayPointNode F) (direction : ℤ)
      → ((ltb_ℤ direction (pos 0) ≡ false)
          → add_lane_polys_either ps to waypt direction
            ≡ to ++ filter (λ p. lane_poly p waypt.id) ps)
        × ((ltb_ℤ direction (pos 0) ≡ true)
            → add_lane_polys_either ps to waypt direction
              ≡ to ++ backwards (filter (λ p. lane_poly p waypt.id) ps))
  unfolding add_lane_polys_either add_lane_polys add_reverse_lane_polys
  add_lane_polys_either-filter ps to waypt direction = (
    λ e. rw e (push_matching-filter (λ p. lane_poly p waypt.id) ps to),
    λ e. rw e (
        push_reverse-filter (λ p. lane_poly p waypt.id) ps (length ps) to
        ∙ ap (λ l. to ++ backwards (filter (λ p. lane_poly p waypt.id) l)) (take-length ps)),
  )
