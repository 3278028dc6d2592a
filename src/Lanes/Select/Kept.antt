-- ===== src/Lanes/Select/Kept.antt =====
-- Which polygons the loops that fill a list from another take and keep.
use utexas_art_ros_pkg.Base.{
  ◌≡◌, refl, ◌⊎◌, inl, inr, Bool, true, List, [], ◌∷◌, All, All-append, All-mono, Memᴰ-filter,
  filter, subst, sym, if_elim, arith,
}
use mathlib.Core.List.{Memᴰ}
use mathlib.Core.List.Memᴰ
use utexas_art_ros_pkg.RoadMap.Element.{ElementId, id_ne, id_eq_iff}
use utexas_art_ros_pkg.Lanes.Poly.{Poly, match_waypt_poly}
use utexas_art_ros_pkg.Lanes.Select.{push_matching, push_first, push_if, add_polys_for_waypts}
use utexas_art_ros_pkg.Lanes.Select.Reverse.{push_matching-filter}

module _ {F : Type 0} where
  push_if-All {ℓ} :
      (P : Poly F → Type ℓ) (test : Bool) (p : Poly F) (to : List (Poly F))
      → (test ≡ true → P p)
      → All P to
      → All P (push_if test p to)
  push_if-All P test p to h a =
      if_elim (All P) test (λ e. All-append P to (p ∷ []) a (h e, tt)) (λ _. a)

  push_matching-All {ℓ} :
      (P : Poly F → Type ℓ) (test : Poly F → Bool) (ps to : List (Poly F))
      → All (λ p. test p ≡ true → P p) ps
      → All P to
      → All P (push_matching test ps to)
  unfolding push_matching
  push_matching-All P test [] to h a = a
  push_matching-All P test (p ∷ ps) to h a =
      push_matching-All P test ps _ h.1 (push_if-All P (test p) p to h.0 a)

  push_first-All {ℓ} :
      (P : Poly F → Type ℓ) (test : Poly F → Bool) (ps to : List (Poly F))
      → All (λ p. test p ≡ true → P p) ps
      → All P to
      → All P (push_first test ps to)
  unfolding push_first
  push_first-All P test [] to h a = a
  push_first-All P test (p ∷ ps) to h a =
      if_elim (All P) (test p) (λ e. All-append P to (p ∷ []) a (h.0 e, tt))
        (λ _. push_first-All P test ps to h.1 a)

  match_waypt_poly_iff :
      (p : Poly F) (a b : ElementId)
      → match_waypt_poly p a b ≡ true
      → (p.start_way ≡ a) × (p.end_way ≡ b)
  unfolding match_waypt_poly
  match_waypt_poly_iff p a b h = ground (arith, id_eq_iff p.start_way a, id_eq_iff p.end_way b)

  match_of :
      (p : Poly F) (a b : ElementId)
      → p.start_way ≡ a
      → p.end_way ≡ b
      → match_waypt_poly p a b ≡ true
  unfolding match_waypt_poly
  match_of p a b s e = ground (arith, id_eq_iff p.start_way a, id_eq_iff p.end_way b)

  -- a polygon on the way from one way-point to another
  abbrev pub Leads : ElementId → ElementId → Poly F → Type 0
  Leads a b p = ((p.start_way ≡ a) ⊎ (p.start_way ≡ b)) × (p.end_way ≡ b)

  pub add_polys_for_waypts-All {ℓ} :
      (P : Poly F → Type ℓ) (ps to : List (Poly F)) (a b : ElementId)
      → All (λ p. Leads a b p → P p) ps
      → All P to
      → All P (add_polys_for_waypts ps to a b)
  unfolding add_polys_for_waypts
  add_polys_for_waypts-All P ps to a b h all =
      push_first-All P _ ps _
        (All-mono _ _
          (λ p f e. f (inr (match_waypt_poly_iff p b b e).0, (match_waypt_poly_iff p b b e).1)) ps
          h)
        (if_elim (All P) (id_ne a b)
          (λ _.
            push_matching-All P _ ps to
              (All-mono _ _
                (λ p f e.
                  f (inl (match_waypt_poly_iff p a b e).0, (match_waypt_poly_iff p a b e).1))
                ps h)
              all)
          (λ _. all))

  push_matching-keeps :
      (test : Poly F → Bool) (ps to : List (Poly F)) (q : Poly F)
      → Memᴰ q to ⊎ (Memᴰ q ps × (test q ≡ true))
      → Memᴰ q (push_matching test ps to)
  push_matching-keeps test ps to q h =
      subst (Memᴰ q) (sym (push_matching-filter test ps to)) (elim h [
        | inl m ↦ Memᴰ.append_left (filter test ps) m
        | inr (m, e) ↦ Memᴰ.append_right to (Memᴰ-filter test ps m e)
      ])

  push_first-keeps :
      (test : Poly F → Bool) (ps to : List (Poly F)) (q : Poly F)
      → Memᴰ q to
      → Memᴰ q (push_first test ps to)
  unfolding push_first
  push_first-keeps test [] to q m = m
  push_first-keeps test (p ∷ ps) to q m =
      if_elim (Memᴰ q) (test p) (λ _. Memᴰ.append_left (p ∷ []) m)
        (λ _. push_first-keeps test ps to q m)

  pub add_polys_for_waypts-keeps :
      (ps to : List (Poly F)) (a b : ElementId) (q : Poly F)
      → Memᴰ q to ⊎ (Memᴰ q ps × (id_ne a b ≡ true) × (q.start_way ≡ a) × (q.end_way ≡ b))
      → Memᴰ q (add_polys_for_waypts ps to a b)
  unfolding add_polys_for_waypts
  add_polys_for_waypts-keeps ps to a b q h = push_first-keeps _ ps _ q (elim h [
    | inl m ↦ if_elim (Memᴰ q) (id_ne a b) (λ _. push_matching-keeps _ ps to q (inl m)) (λ _. m)
    | inr (m, ne, start, stop) ↦
        rw ne (push_matching-keeps _ ps to q (inr (m, match_of q a b start stop)))
  ])

  pub add_polys_for_waypts-nil : (a b : ElementId) → add_polys_for_waypts {F = F} [] [] a b ≡ []
  unfolding add_polys_for_waypts push_first push_matching
  add_polys_for_waypts-nil a b =
      if_elim (λ (l : List (Poly F)). l ≡ []) (id_ne a b) (λ _. refl) (λ _. refl)
