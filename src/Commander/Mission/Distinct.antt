-- ===== src/Commander/Mission/Distinct.antt =====
-- Which checkpoints of a file the constructor of art_nav/src/lib/Mission.cc keeps.
use mathlib.Core.List.{Memᴰ}
use mathlib.Core.List.Memᴰ
use utexas_art_ros_pkg.Base.{
  ◌≢◌, ◌↔◌, inl, inr, List, [], ◌∷◌, ℤ, negsuc, eqb_ℤ, eqb_ℤ_iff, Bool-cases, ◌∙◌, if_elim, subst,
  sym, false≢true,
}
use utexas_art_ros_pkg.Commander.Mission.{distinct_from, of_mdf}

-- no two neighbours are equal, and the first is not `c`
abbrev pub Distinct : ℤ → List ℤ → Type 0
Distinct c [] = Unit
Distinct c (d ∷ ds) = (c ≢ d) × Distinct d ds

Distinct-from : (c : ℤ) (ds : List ℤ) → Distinct c (distinct_from c ds)
unfolding distinct_from
Distinct-from c [] = tt
Distinct-from c (d ∷ ds) =
    if_elim (Distinct c) (eqb_ℤ c d)
      (λ t.
        subst (λ x. Distinct x (distinct_from d ds)) (sym ((eqb_ℤ_iff c d).0 t))
          (Distinct-from d ds))
      (λ f. ((λ e. false≢true (sym f ∙ (eqb_ℤ_iff c d).1 e)), Distinct-from d ds))

mem-distinct_from : (a c : ℤ) (ds : List ℤ) → a ≢ c → Memᴰ a ds ↔ Memᴰ a (distinct_from c ds)
unfolding distinct_from
mem-distinct_from a c [] h = ((λ m. m), λ m. m)
mem-distinct_from a c (d ∷ ds) h = elim (Bool-cases (eqb_ℤ c d)) [
  | inl t ↦
      let ne : a ≢ d = λ e. h (e ∙ sym ((eqb_ℤ_iff c d).0 t)) in
      rw t (
        (λ m. elim (Memᴰ.cases_cons m) [
          | inl e ↦ absurd (ne e)
          | inr r ↦ (mem-distinct_from a d ds ne).0 r
        ]),
        λ m. Memᴰ.tail ((mem-distinct_from a d ds ne).1 m),
      )
  | inr f ↦ rw f (elim (Bool-cases (eqb_ℤ a d)) [
    | inl t ↦ let same = (eqb_ℤ_iff a d).0 t in ((λ m. Memᴰ.head same), λ m. Memᴰ.head same)
    | inr g ↦
        let ne : a ≢ d = λ e. false≢true (sym g ∙ (eqb_ℤ_iff a d).1 e) in
        (
          (λ m. elim (Memᴰ.cases_cons m) [
            | inl e ↦ Memᴰ.head e
            | inr r ↦ Memᴰ.tail ((mem-distinct_from a d ds ne).0 r)
          ]),
          λ m. elim (Memᴰ.cases_cons m) [
            | inl e ↦ Memᴰ.head e
            | inr r ↦ Memᴰ.tail ((mem-distinct_from a d ds ne).1 r)
          ],
        )
  ])
]

-- Of the checkpoints of a mission file no two that follow one another are kept alike, and each one
-- but -1 is in the mission exactly when it is in the file.
pub of_mdf-Distinct :
    (ids : List ℤ)
    → Distinct (negsuc 0) (of_mdf ids).checkpoint_ids
      × ((c : ℤ) → c ≢ negsuc 0 → Memᴰ c ids ↔ Memᴰ c (of_mdf ids).checkpoint_ids)
unfolding of_mdf
of_mdf-Distinct ids = (Distinct-from (negsuc 0) ids, λ c h. mem-distinct_from c (negsuc 0) ids h)
