-- ===== src/Commander/Mission/Visits.antt =====
-- In which order the checkpoints of art_nav/src/lib/Mission.cc are visited.
use utexas_art_ros_pkg.Base.{
  ℕ, zero, suc, ◌≡◌, ◌≢◌, ◌↔◌, refl, true, List, [], ◌∷◌, none, some, ℤ, negsuc, length, get_or,
  arith, Bool, Option, false, not, and_then, All, ◌<◌, ==_iff, if◌then◌else◌, ap, ◌∙◌, ltb, ◌-◌,
}
use utexas_art_ros_pkg.RoadMap.Element.{ElementId, null_id}
use utexas_art_ros_pkg.RoadMap.Graph.{Graph}
use utexas_art_ros_pkg.Commander.Mission.{
  Mission, checkpoint_node, populate_elementid, next_point, current_checkpoint_id,
  current_checkpoint_elementid, next_checkpoint_elementid, tail, is_empty,
}
use utexas_art_ros_pkg.Commander.Mission.Checkpoints.{
  Aligned, found_ids, element_ids-eq, found_ids-Aligned, Aligned-found, found-All,
}

module _ {F : Type 0} where
  -- A fresh mission is populated with success exactly when every checkpoint has a way-point, and
  -- then each way-point identifier is that of the first node with its checkpoint, in order.
  pub populate_elementid_correct :
      (g : Graph F) (m : Mission)
      → m.checkpoint_elementid ≡ []
      → (((populate_elementid g m).1 ≡ true)
          ↔ All (λ c. checkpoint_node g.nodes c ≢ none) m.checkpoint_ids)
        × ((populate_elementid g m).0.checkpoint_ids ≡ m.checkpoint_ids)
        × ((populate_elementid g m).1 ≡ true
            → Aligned g.nodes m.checkpoint_ids (populate_elementid g m).0.checkpoint_elementid)
  unfolding populate_elementid
  populate_elementid_correct g m fresh =
      let cs = m.checkpoint_ids in
      let same = element_ids-eq g.nodes [] cs in
      rw (fresh, same)
        (
          (
            λ t. found-All g.nodes cs ((==_iff (length (found_ids g.nodes cs)) (length cs)).0 t),
            λ all.
                (==_iff (length (found_ids g.nodes cs)) (length cs)).1
                  (Aligned-found g.nodes cs all),
          ),
          refl,
          λ t.
              found_ids-Aligned g.nodes cs
                ((==_iff (length (found_ids g.nodes cs)) (length cs)).0 t),
        )

-- the mission after k calls of nextPoint
pub visits : ℕ → Mission → Option Mission
visits zero m = some m
visits (suc k) m = and_then (next_point m) λ r. visits k r.0

get_or-tail {ℓ} :
    {A : Type ℓ} (xs : List A) (k : ℕ) (d : A) → get_or (tail xs) k d ≡ get_or xs (suc k) d
get_or-tail [] zero d = refl
get_or-tail [] (suc k) d = refl
get_or-tail (x ∷ xs) k d = refl

length-tail {ℓ} : {A : Type ℓ} (xs : List A) → length (tail xs) ≡ length xs - 1
length-tail [] = omega arith
length-tail (x ∷ xs) = omega arith

get_or-short :
    (xs : List ElementId)
    → (if ltb (length xs) 2 then null_id else get_or xs 1 null_id) ≡ get_or xs 1 null_id
get_or-short [] = refl
get_or-short (x ∷ []) = refl
get_or-short (x ∷ y ∷ ys) = ground arith

-- What a call of nextPoint leaves and returns.
record Popped (m : Mission) : Type 0 where
  after : Mission × Bool
  returns : next_point m ≡ some after
  ids : after.0.checkpoint_ids ≡ tail m.checkpoint_ids
  elementids : after.0.checkpoint_elementid ≡ tail m.checkpoint_elementid
  more : (after.1 ≡ true) ↔ (1 < length m.checkpoint_ids)

nonempty : (xs : List ℤ) → (not (is_empty xs) ≡ true) ↔ (0 < length xs)
nonempty [] = ((λ h. cc), λ h. absurd (omega arith))
nonempty (x ∷ xs) = ((λ h. omega arith), λ h. refl)

next_point-Popped :
    (ids : List ℤ) (ways : List ElementId)
    → length ids ≡ length ways
    → Popped (record { checkpoint_ids = ids; checkpoint_elementid = ways })
unfolding next_point
next_point-Popped [] [] h = record {
  after = (record { checkpoint_ids = []; checkpoint_elementid = [] }, false);
  returns = refl;
  ids = refl;
  elementids = refl;
  more = ((λ f. cc), λ f. absurd (omega arith));
}
next_point-Popped [] (w ∷ ways) h = absurd (omega (arith, h))
next_point-Popped (x ∷ ids) [] h = absurd (omega (arith, h))
next_point-Popped (x ∷ ids) (w ∷ ways) h =
    let (there, back) = nonempty ids in
    record {
      after = (record { checkpoint_ids = ids; checkpoint_elementid = ways }, not (is_empty ids));
      returns = refl;
      ids = refl;
      elementids = refl;
      more = ((λ t. omega (arith, there t)), λ l. back (omega arith));
    }

-- The mission after k calls, and what it answers then.
pub record Visited (k : ℕ) (m : Mission) : Type 0 where
  pub here : Mission
  pub further : Mission × Bool
  pub reaches : visits k m ≡ some here
  pub returns : next_point here ≡ some further
  pub id : current_checkpoint_id here ≡ get_or m.checkpoint_ids k (negsuc 0)
  pub way : current_checkpoint_elementid here ≡ get_or m.checkpoint_elementid k null_id
  pub next_way : next_checkpoint_elementid here ≡ get_or m.checkpoint_elementid (suc k) null_id
  pub more : (further.1 ≡ true) ↔ (suc k < length m.checkpoint_ids)

-- Where a mission has as many way-point identifiers as checkpoints, nextPoint never pops an empty deque. After
-- k calls the current checkpoint and its identifier are those number k of the mission and the next identifier is the one
-- after, -1 and the null identifier past the end, and another call says whether a checkpoint is left then.
pub visits_in_order :
    (k : ℕ) (m : Mission) → length m.checkpoint_ids ≡ length m.checkpoint_elementid → Visited k m
unfolding visits current_checkpoint_id current_checkpoint_elementid next_checkpoint_elementid
visits_in_order zero m h =
    let p = next_point-Popped m.checkpoint_ids m.checkpoint_elementid h in
    record {
      here = m;
      further = p.after;
      reaches = refl;
      returns = p.returns;
      id = refl;
      way = refl;
      next_way = get_or-short m.checkpoint_elementid;
      more = p.more;
    }
visits_in_order (suc k) m h =
    let p = next_point-Popped m.checkpoint_ids m.checkpoint_elementid h in
    let v = visits_in_order k p.after.0 (
      omega (
        arith,
        h,
        ap length p.ids,
        ap length p.elementids,
        length-tail m.checkpoint_ids,
        length-tail m.checkpoint_elementid,
      )) in
    let shorter : length p.after.0.checkpoint_ids ≡ length m.checkpoint_ids - 1 =
      ap length p.ids ∙ length-tail m.checkpoint_ids in
    record {
      here = v.here;
      further = v.further;
      reaches = ap (λ o. and_then o λ r. visits k r.0) p.returns ∙ v.reaches;
      returns = v.returns;
      id =
          v.id
          ∙ ap (λ xs. get_or xs k (negsuc 0)) p.ids
          ∙ get_or-tail m.checkpoint_ids k (negsuc 0);
      way =
          v.way
          ∙ ap (λ xs. get_or xs k null_id) p.elementids
          ∙ get_or-tail m.checkpoint_elementid k null_id;
      next_way =
          v.next_way
          ∙ ap (λ xs. get_or xs (suc k) null_id) p.elementids
          ∙ get_or-tail m.checkpoint_elementid (suc k) null_id;
      more = ((λ t. omega (arith, v.more.0 t, shorter)), λ l. v.more.1 (omega (arith, shorter)));
    }
