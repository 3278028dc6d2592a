-- ===== src/Commander/Mission/Checkpoints.antt =====
-- Which way-points the loops of populate_elementid of art_nav/src/lib/Mission.cc find.
use mathlib.Core.Option.{some-injective}
use utexas_art_ros_pkg.Base.{
  eqb_ℤ, eqb_ℤ_iff, if_elim, subst, sym, false≢true, suc, ◌≡◌, ◌≢◌, inl, inr, refl, List, [], ◌∷◌,
  ◌++◌, none, some, ℤ, length, arith, Option, Option-cases, All, ap, ◌∙◌, ◌≤◌, append-nil,
  append_assoc,
}
use utexas_art_ros_pkg.RoadMap.Element.{ElementId}
use utexas_art_ros_pkg.RoadMap.WayPoint.{WayPointNode}
use utexas_art_ros_pkg.Commander.Mission.{checkpoint_node, element_ids}

module _ {F : Type 0} where
  -- the first node with a checkpoint
  pub record First (nodes : List (WayPointNode F)) (c : ℤ) (n : WayPointNode F) : Type 0 where
    pub before : List (WayPointNode F)
    pub after : List (WayPointNode F)
    pub place : nodes ≡ before ++ n ∷ after
    pub its_own : n.checkpoint_id ≡ c
    pub no_earlier : All (λ (m : WayPointNode F). m.checkpoint_id ≢ c) before

  checkpoint_node-First :
      (nodes : List (WayPointNode F)) (c : ℤ) (n : WayPointNode F)
      → checkpoint_node nodes c ≡ some n
      → First nodes c n
  unfolding checkpoint_node
  checkpoint_node-First [] c n = λ h. cc
  checkpoint_node-First (m ∷ ms) c n =
      if_elim (λ (o : Option (WayPointNode F)). o ≡ some n → First (m ∷ ms) c n)
        (eqb_ℤ m.checkpoint_id c)
        (λ t e. record {
          before = [];
          after = ms;
          place = ap (λ (x : WayPointNode F). x ∷ ms) (some-injective _ _ e);
          its_own =
              subst (λ (x : WayPointNode F). x.checkpoint_id ≡ c) (some-injective _ _ e)
                ((eqb_ℤ_iff m.checkpoint_id c).0 t);
          no_earlier = tt;
        })
        (λ f e.
          let rest = checkpoint_node-First ms c n e in
          record {
            before = m ∷ rest.before;
            after = rest.after;
            place = ap (◌∷◌ m) rest.place;
            its_own = rest.its_own;
            no_earlier =
                ((λ x. false≢true (sym f ∙ (eqb_ℤ_iff m.checkpoint_id c).1 x)), rest.no_earlier);
          })

  -- each way-point is that of its checkpoint
  abbrev pub Aligned : List (WayPointNode F) → List ℤ → List ElementId → Type 0
  Aligned nodes [] [] = Unit
  Aligned nodes [] (e ∷ es) = ⊥
  Aligned nodes (c ∷ cs) [] = ⊥
  Aligned nodes (c ∷ cs) (e ∷ es) =
      ((n : WayPointNode F) × First nodes c n × (n.id ≡ e)) × Aligned nodes cs es

  -- the way-points that are found for some checkpoints
  pub found_ids : List (WayPointNode F) → List ℤ → List ElementId
  found_ids nodes [] = []
  found_ids nodes (c ∷ cs) =
      let rest = found_ids nodes cs in
      elim (checkpoint_node nodes c) [ none ↦ rest | some n ↦ n.id ∷ rest ]

  length-found_ids :
      (nodes : List (WayPointNode F)) (cs : List ℤ) → length (found_ids nodes cs) ≤ length cs
  unfolding found_ids
  length-found_ids nodes [] = omega arith
  length-found_ids nodes (c ∷ cs) = elim (Option-cases (checkpoint_node nodes c)) [
    | inl e ↦ rw (e, found_ids) (omega (arith, length-found_ids nodes cs))
    | inr (n, e) ↦ rw (e, found_ids) (omega (arith, length-found_ids nodes cs))
  ]

  pub element_ids-eq :
      (nodes : List (WayPointNode F)) (acc : List ElementId) (cs : List ℤ)
      → element_ids nodes acc cs ≡ acc ++ found_ids nodes cs
  unfolding element_ids found_ids
  element_ids-eq nodes acc [] = simp append-nil
  element_ids-eq nodes acc (c ∷ cs) = elim (Option-cases (checkpoint_node nodes c)) [
    | inl e ↦ rw (e, found_ids) (element_ids-eq nodes acc cs)
    | inr (n, e) ↦
        rw (e, found_ids)
          (element_ids-eq nodes (acc ++ n.id ∷ []) cs
            ∙ append_assoc acc (n.id ∷ []) (found_ids nodes cs))
  ]

  pub found_ids-Aligned :
      (nodes : List (WayPointNode F)) (cs : List ℤ)
      → length (found_ids nodes cs) ≡ length cs
      → Aligned nodes cs (found_ids nodes cs)
  unfolding found_ids
  found_ids-Aligned nodes [] h = tt
  found_ids-Aligned nodes (c ∷ cs) h = elim (Option-cases (checkpoint_node nodes c)) [
    | inl e ↦ absurd (missing e)
    | inr (n, e) ↦
        rw (e, found_ids)
          (
            (n, checkpoint_node-First nodes c n e, refl),
            found_ids-Aligned nodes cs (omega (arith, found e)),
          )
  ]
    where
      missing : checkpoint_node nodes c ≡ none → ⊥
      missing e = ground (arith, length-found_ids nodes cs)

      found :
          {n : WayPointNode F}
          → checkpoint_node nodes c ≡ some n
          → suc (length (found_ids nodes cs)) ≡ suc (length cs)
      found e = ground arith

  pub Aligned-found :
      (nodes : List (WayPointNode F)) (cs : List ℤ)
      → All (λ c. checkpoint_node nodes c ≢ none) cs
      → length (found_ids nodes cs) ≡ length cs
  unfolding found_ids
  Aligned-found nodes [] h = refl
  Aligned-found nodes (c ∷ cs) h = elim (Option-cases (checkpoint_node nodes c)) [
    | inl e ↦ absurd (h.0 e)
    | inr (n, e) ↦ rw (e, found_ids) (ap suc (Aligned-found nodes cs h.1))
  ]

  pub found-All :
      (nodes : List (WayPointNode F)) (cs : List ℤ)
      → length (found_ids nodes cs) ≡ length cs
      → All (λ c. checkpoint_node nodes c ≢ none) cs
  unfolding found_ids
  found-All nodes [] h = tt
  found-All nodes (c ∷ cs) h = elim (Option-cases (checkpoint_node nodes c)) [
    | inl e ↦ absurd (ground (arith, length-found_ids nodes cs))
    | inr (n, e) ↦ (λ f. cc, found-All nodes cs (ground arith))
  ]
