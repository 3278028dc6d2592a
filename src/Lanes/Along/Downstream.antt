-- ===== src/Lanes/Along/Downstream.antt =====
-- What index_of_downstream_poly of art_map/src/lib/PolyOps.cc finds.
use mathlib.Core.Path.{ap₂}
use utexas_art_ros_pkg.Base.{
  ℕ, zero, suc, ◌+◌, ◌-◌, ◌<◌, ◌≤◌, ◌≡◌, refl, ap, subst, ◌⊎◌, inl, inr, true, false, Bool-cases,
  List, none, some, ◌==◌, leb, length, pos, negsuc, arith, ==_iff, below_suc,
}
use utexas_art_ros_pkg.Numeric.{Floats}
use utexas_art_ros_pkg.Lanes.Poly.{Poly}
use utexas_art_ros_pkg.Lanes.Along.{length_at, downstream, index_of_downstream_poly}

module _ {F : Type 0} ⦃fl : Floats F⦄ (polys : List (Poly F)) (distance : F) where
  -- the lengths of the polygons from `start` on, `n` after the first, added up
  abbrev pub reach : ℕ → ℕ → F
  reach start zero = length_at polys start
  reach start (suc n) = fl.fadd (reach start n) (length_at polys (start + suc n))

  -- `n` polygons after the first are passed, and the one then reached is the last of the list or
  -- extends to the distance
  pub record Reached (start n : ℕ) : Type 0 where
    pub inside : start + n < length polys
    pub passed : (k : ℕ) → k < n → fl.lt (reach start k) distance ≡ true
    pub stops : (suc (start + n) ≡ length polys) ⊎ (fl.lt (reach start n) distance ≡ false)

  downstream-Reached :
      (start rounds n j : ℕ) (so_far : F)
      → j ≡ start + n
      → so_far ≡ reach start n
      → j + rounds ≡ length polys
      → j < length polys
      → ((k : ℕ) → k < n → fl.lt (reach start k) distance ≡ true)
      → (m : ℕ) × (downstream rounds polys distance j so_far ≡ start + m) × Reached start m
  unfolding downstream
  downstream-Reached start zero n j so_far at sum total inside passed = absurd (omega arith)
  downstream-Reached start (suc rounds) n j so_far at sum total inside passed =
      elim (Bool-cases (fl.lt so_far distance)) [
        | inr e ↦ (
          n,
          rw e at,
          record {
            inside = omega arith;
            passed = passed;
            stops = inr (subst (λ l. fl.lt l distance ≡ false) sum e);
          },
        )
        | inl e ↦ elim (Bool-cases (suc j == length polys)) [
          | inl last ↦ (
            n,
            rw (e, last) at,
            record {
              inside = omega arith;
              passed = passed;
              stops = inl (ground (arith, ==_iff (suc j) (length polys)));
            },
          )
          | inr more ↦
              rw (e, more)
                (downstream-Reached start rounds (suc n) (suc j) _ (omega arith)
                  (ap₂ fl.fadd sum (ap (length_at polys) (omega arith))) (omega arith)
                  (ground (arith, ==_iff (suc j) (length polys)))
                  (below_suc (λ k. fl.lt (reach start k) distance ≡ true) n passed
                    (subst (λ l. fl.lt l distance ≡ true) sum e)))
        ]
      ]

  -- There is no index downstream of one that is out of range, and a distance of zero or less
  -- leaves an index as it is. Otherwise the index found is in range, and the first whose polygon
  -- ends no nearer than the distance, or else the last one: the lengths from the start up to each
  -- polygon before it add up to less than the distance.
  pub index_of_downstream_poly-Reached :
      (i : ℕ)
      → (index_of_downstream_poly polys (negsuc i) distance ≡ none)
        × (length polys ≤ i → index_of_downstream_poly polys (pos i) distance ≡ none)
        × (i < length polys
            → fl.le distance (fl.of_int (pos 0)) ≡ true
            → index_of_downstream_poly polys (pos i) distance ≡ some i)
        × (i < length polys
            → fl.le distance (fl.of_int (pos 0)) ≡ false
            → (n : ℕ) × (index_of_downstream_poly polys (pos i) distance ≡ some (i + n))
              × Reached i n)
  unfolding index_of_downstream_poly
  index_of_downstream_poly-Reached i =
      let outside : length polys ≤ i → leb (length polys) i ≡ true = λ h. ground arith in
      let inside : i < length polys → leb (length polys) i ≡ false = λ h. ground arith in
      (
        refl,
        λ h. rw (outside h) refl,
        λ h e. rw (inside h, e) refl,
        λ h e.
            let (n, found, reached) =
              downstream-Reached i (length polys - i) 0 i (length_at polys i) (omega arith) refl
                (omega arith) h (λ k l. absurd (omega arith)) in
            (n, rw (inside h, e) (ap some found), reached),
      )
