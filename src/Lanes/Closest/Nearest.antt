-- ===== src/Lanes/Closest/Nearest.antt =====
-- What getClosestPoly and getContainingPoly of art_map/src/lib/PolyOps.cc find.
use utexas_art_ros_pkg.Base.{
  ℕ, suc, ◌+◌, ◌≡◌, refl, sym, ap, ◌∙◌, inl, inr, true, false, Bool-cases, List, [], ◌∷◌, ◌++◌,
  append-nil, append_assoc, Option, none, some, get_elem?, length, length-append, All, All-append,
  All-mono, pos, and_then, if◌then◌else◌, get_elem?-append, contrapose, All-of_append, subst, arith,
}
use utexas_art_ros_pkg.Numeric.{Floats, equal}
use utexas_art_ros_pkg.RoadMap.WayPoint.{MapXy}
use utexas_art_ros_pkg.Lanes.Poly.{Poly, get_shortest_dist_to_poly}
use utexas_art_ros_pkg.Lanes.Closest.{closest_from, get_closest_poly, get_containing_poly}

module _ {F : Type 0} ⦃fl : Floats F⦄ (pt : MapXy F) where
  abbrev pub dist : Poly F → F
  dist p = get_shortest_dist_to_poly pt p

  -- the test by which the loop takes a polygon as containing the point
  abbrev pub Touches : Poly F → Type 0
  Touches p = equal (dist p) (fl.of_int (pos 0)) ≡ true

  abbrev pub Apart : Poly F → Type 0
  Apart p = equal (dist p) (fl.of_int (pos 0)) ≡ false

  -- what a search for the closest polygon has to find
  pub data Nearest (polys : List (Poly F)) : Option ℕ → Type 0 where
    nothing : polys ≡ [] → Nearest polys none
    touching :
        (before : List (Poly F)) (q : Poly F) (after : List (Poly F))
        → polys ≡ before ++ (q ∷ after)
        → All Apart before
        → Touches q
        → Nearest polys (some (length before))
    nearest :
        (before : List (Poly F)) (q : Poly F) (after : List (Poly F))
        → polys ≡ before ++ (q ∷ after)
        → All Apart polys
        → All (λ b. fl.lt (dist q) (dist b) ≡ true) before
        → All (λ a. fl.lt (dist a) (dist q) ≡ false) after
        → Nearest polys (some (length before))

  abbrev pub Within : Poly F → Type 0
  Within p = fl.lt (dist p) fl.distance_epsilon ≡ true

  abbrev pub Beyond : Poly F → Type 0
  Beyond p = fl.lt (dist p) fl.distance_epsilon ≡ false

  -- what a search for a polygon that contains the point has to find
  pub data Contained (polys : List (Poly F)) : Option ℕ → Type 0 where
    outside : All Beyond polys → Contained polys none
    within :
        (i : ℕ) (q : Poly F)
        → Nearest polys (some i)
        → get_elem? polys i ≡ some q
        → Within q
        → Contained polys (some i)

  module _ (Number : F → Type 0)
      (lt_trans : (a b c : F) → fl.lt a b ≡ true → fl.lt b c ≡ true → fl.lt a c ≡ true)
      (lt_of_not : (a b c : F)
        → Number c
        → fl.lt a b ≡ true
        → fl.lt c b ≡ false
        → fl.lt a c ≡ true) where
    -- the polygons seen are `before`, `q` and `mid`, of which `q` is the nearest
    closest_from-Nearest :
        (polys before : List (Poly F)) (q : Poly F) (mid rest : List (Poly F)) (n k : ℕ)
        → polys ≡ (before ++ (q ∷ mid)) ++ rest
        → n ≡ length before + length mid
        → k ≡ length before
        → All (λ p. Number (dist p)) rest
        → All Apart (before ++ (q ∷ mid))
        → All (λ b. fl.lt (dist q) (dist b) ≡ true) before
        → All (λ a. Number (dist a) × (fl.lt (dist a) (dist q) ≡ false)) mid
        → Nearest polys (closest_from pt (suc n) (some k) (dist q) rest)
    unfolding closest_from
    closest_from-Nearest polys before q mid [] n k split at_n at_k numbers apart far near =
        let whole = split ∙ append-nil (before ++ (q ∷ mid)) in
        subst (λ j. Nearest polys (some j)) (sym at_k)
          (nearest before q mid whole (subst (All Apart) (sym whole) apart) far
            (All-mono _ (λ a. fl.lt (dist a) (dist q) ≡ false) (λ a h. h.1) mid near))
    closest_from-Nearest polys before q mid (p ∷ rest) n k split at_n at_k numbers apart far near =
        let seen = before ++ (q ∷ mid) in
        let longer = split ∙ sym (append_assoc seen (p ∷ []) rest) in
        let joined = append_assoc before (q ∷ mid) (p ∷ []) in
        let at : suc n ≡ length seen = omega (arith, length-append before (q ∷ mid)) in
        elim (Bool-cases (equal (dist p) (fl.of_int (pos 0)))) [
          | inl e ↦
              rw e
                (subst (λ j. Nearest polys (some j)) (sym at) (touching seen p rest split apart e))
          | inr e ↦
              let more = All-append Apart seen (p ∷ []) apart (e, tt) in
              rw e (elim (Bool-cases (fl.lt (dist p) (dist q))) [
                | inl l ↦ rw l (
                    closest_from-Nearest polys seen p [] rest (suc n) (suc n) longer (omega arith)
                      at numbers.1 more
                      (All-append _ before (q ∷ mid)
                        (All-mono _ _ (λ b. lt_trans _ _ _ l) before far)
                        (l, All-mono _ _ (λ a h. lt_of_not _ _ _ h.0 l h.1) mid near))
                      tt)
                | inr l ↦ rw l (
                    closest_from-Nearest polys before q (mid ++ (p ∷ [])) rest (suc n) k
                      (longer ∙ ap (λ xs. xs ++ rest) joined)
                      (omega (arith, length-append mid (p ∷ []))) at_k numbers.1
                      (subst (All Apart) joined more) far
                      (All-append _ mid (p ∷ []) near ((numbers.0, l), tt)))
              ])
        ]

    pub get_closest_poly-Nearest :
        (polys : List (Poly F))
        → All (λ p. Number (dist p)) polys
        → Nearest polys (get_closest_poly polys pt)
    unfolding get_closest_poly closest_from
    get_closest_poly-Nearest [] numbers = nothing refl
    get_closest_poly-Nearest (p ∷ rest) numbers =
        elim (Bool-cases (equal (dist p) (fl.of_int (pos 0)))) [
          | inl e ↦ rw e (touching [] p rest refl tt e)
          | inr e ↦
              let found =
                closest_from-Nearest (p ∷ rest) [] p [] rest 0 0 refl refl refl numbers.1 (e, tt) tt
                  tt in
              rw e (elim (Bool-cases (fl.lt (dist p) (dist p))) [
                | inl l ↦ rw l found
                | inr l ↦ rw l found
              ])
        ]

    All-Beyond :
        (q : Poly F) (before after : List (Poly F))
        → Number (dist q)
        → Beyond q
        → All (λ b. fl.lt (dist q) (dist b) ≡ true) before
        → All (λ a. fl.lt (dist a) (dist q) ≡ false) after
        → All Beyond (before ++ (q ∷ after))
    All-Beyond q before after number beyond far near =
        All-append Beyond before (q ∷ after)
          (All-mono _ Beyond (λ b l. contrapose _ _ (λ w. lt_trans _ _ _ l w) beyond) before far)
          (
            beyond,
            All-mono _ Beyond (λ a l. contrapose _ _ (λ w. lt_of_not _ _ _ number w beyond) l) after
                near,
          )

    Nearest-Contained :
        (polys : List (Poly F)) (o : Option ℕ)
        → All (λ p. Number (dist p)) polys
        → All (λ p. Touches p → Within p) polys
        → Nearest polys o
        → Contained polys (
            and_then o λ i.
              and_then
                (get_elem? polys i)
                λ closest. if fl.lt (dist closest) fl.distance_epsilon then some i else none)
    Nearest-Contained polys _ numbers near_zero (nothing e) =
        outside (subst (All Beyond) (sym e) tt)
    Nearest-Contained polys _ numbers near_zero (touching before q after e apart t) =
        let at = ap (λ ps. get_elem? ps (length before)) e ∙ get_elem?-append before q after in
        let here = (All-of_append _ before (q ∷ after) (subst (All _) e near_zero)).1.0 t in
        rw at (rw here (within _ q (touching before q after e apart t) at here))
    Nearest-Contained polys _ numbers near_zero (nearest before q after e apart far near) =
        let at = ap (λ ps. get_elem? ps (length before)) e ∙ get_elem?-append before q after in
        let number = (All-of_append _ before (q ∷ after) (subst (All _) e numbers)).1.0 in
        rw at (elim (Bool-cases (fl.lt (dist q) fl.distance_epsilon)) [
          | inl w ↦ rw w (within _ q (nearest before q after e apart far near) at w)
          | inr b ↦
              rw b
                (outside (subst (All Beyond) (sym e) (All-Beyond q before after number b far near)))
        ])

    -- The search for a polygon that contains a point finds none exactly if all polygons of the
    -- list are at least a centimetre away. What it finds is within a centimetre, and either the
    -- first polygon that the point touches, or, where it touches none, the first of the nearest.
    -- The distances are numbers (not NaN) that compare as IEEE 754 says, and a distance that
    -- equals zero up to Epsilon::float_value is less than Epsilon::distance, a centimetre.
    pub get_containing_poly-Contained :
        (polys : List (Poly F))
        → All (λ p. Number (dist p)) polys
        → All (λ p. Touches p → Within p) polys
        → Contained polys (get_containing_poly polys pt)
    unfolding get_containing_poly
    get_containing_poly-Contained polys numbers near_zero =
        Nearest-Contained polys (get_closest_poly polys pt) numbers near_zero
          (get_closest_poly-Nearest polys numbers)
