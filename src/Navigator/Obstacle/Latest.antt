-- ===== src/Navigator/Obstacle/Latest.antt =====
-- The observations that the callback Obstacle::observers_message keeps,
-- art_nav/src/navigator/obstacle.cc.
use mathlib.Core.Option.{some-injective}
use utexas_art_ros_pkg.Base.{
  ℕ, zero, suc, ◌<◌, ◌≡◌, ◌≢◌, refl, ap, sym, subst, ◌∙◌, Bool-cases, List, [], ◌∷◌, and_then,
  and_then-some, ◌⊎◌, some, get_or, set, length, length-set, All, ltb, ◌==◌, if◌then◌else◌, ◌≤◌, ℤ,
  pos, negsuc, inl, inr, arith,
}
use utexas_art_ros_pkg.Navigator.State.{Observation, Obstacle}
use utexas_art_ros_pkg.Navigator.Obstacle.{store, store_all, observers_message}

module _ {ℓ} {A : Type ℓ} where
  get_or-set :
      (xs : List A) (i j : ℕ) (v d : A)
      → i < length xs
      → get_or (set xs i v) j d ≡ (if i == j then v else get_or xs j d)
  get_or-set [] i j v d h = absurd (omega arith)
  get_or-set (x ∷ xs) zero zero v d h = refl
  get_or-set (x ∷ xs) zero (suc j) v d h = ground arith
  get_or-set (x ∷ xs) (suc i) zero v d h = ground arith
  get_or-set (x ∷ xs) (suc i) (suc j) v d h = ground (arith, get_or-set xs i j v d)

module _ {F : Type 0} where
  -- the observers that there are
  abbrev pub InRange : ℕ → Observation F → Type 0
  InRange size o = (n : ℕ) × (o.oid ≡ pos n) × (n < size)

  -- `y` is the last observation of the message for the observer i, or `x` if it has none.
  pub data Latest (i : ℕ) : List (Observation F) → Observation F → Observation F → Type 0 where
    kept : {x : Observation F} → Latest i [] x x
    passed :
        {x y : Observation F} (o : Observation F) {message : List (Observation F)}
        → o.oid ≢ pos i
        → Latest i message x y
        → Latest i (o ∷ message) x y
    taken :
        {x y : Observation F} (o : Observation F) {message : List (Observation F)}
        → o.oid ≡ pos i
        → Latest i message o y
        → Latest i (o ∷ message) x y

  -- What a message makes of the observations.
  pub record Updated (message obs obs' : List (Observation F)) : Type 0 where
    pub in_range : All (InRange (length obs)) message
    pub as_many : length obs' ≡ length obs
    pub latest : (i : ℕ) (d : Observation F) → Latest i message (get_or obs i d) (get_or obs' i d)

  store-some :
      (z : ℤ) (o : Observation F) (obs obs' : List (Observation F))
      → store z o obs ≡ some obs'
      → (n : ℕ) × (z ≡ pos n) × (n < length obs) × (obs' ≡ set obs n o)
  unfolding store
  store-some (pos n) o obs obs' h = (n, refl, ground arith, ground arith)
  store-some (negsuc n) o obs obs' h = cc

  store-pos :
      (n : ℕ) (o : Observation F) (obs : List (Observation F))
      → n < length obs
      → store (pos n) o obs ≡ some (set obs n o)
  unfolding store
  store-pos n o obs h = ground arith

  latest_step :
      (i : ℕ) (o : Observation F) (message obs obs₂ : List (Observation F)) (d : Observation F)
      (n : ℕ)
      → o.oid ≡ pos n
      → n < length obs
      → Latest i message (get_or (set obs n o) i d) (get_or obs₂ i d)
      → Latest i (o ∷ message) (get_or obs i d) (get_or obs₂ i d)
  latest_step i o message obs obs₂ d n e h l = elim (Bool-cases (n == i)) [
    | inl same ↦ taken o (ground arith) (
        subst (λ x. Latest i message x (get_or obs₂ i d))
          (get_or-set obs n i o d h ∙ ap (λ b. if b then o else get_or obs i d) same) l)
    | inr other ↦
        passed o (λ k. ground arith)
          (subst (λ x. Latest i message x (get_or obs₂ i d))
            (get_or-set obs n i o d h ∙ ap (λ b. if b then o else get_or obs i d) other) l)
  ]

  update_step :
      (o : Observation F) (message obs obs' : List (Observation F)) (n : ℕ)
      → o.oid ≡ pos n
      → n < length obs
      → Updated message (set obs n o) obs'
      → Updated (o ∷ message) obs obs'
  update_step o message obs obs' n e h u = record {
    in_range =
        ((n, e, h), subst (λ size. All (InRange size) message) (length-set obs n o) u.in_range);
    as_many = u.as_many ∙ length-set obs n o;
    latest = λ i d. latest_step i o message obs obs' d n e h (u.latest i d);
  }

  store_all-Updated :
      (message obs obs' : List (Observation F))
      → store_all message obs ≡ some obs'
      → Updated message obs obs'
  unfolding store_all
  store_all-Updated [] obs obs' h = record {
    in_range = tt;
    as_many = ground arith;
    latest = λ i d.
        subst (λ (l : List (Observation F)). Latest i [] (get_or obs i d) (get_or l i d))
          (some-injective _ _ h) kept;
  }
  store_all-Updated (o ∷ message) obs obs' h =
      let (obs₁, e, k) = and_then-some (store o.oid o obs) (store_all message) h in
      let (n, at_n, below, is_set) = store-some o.oid o obs obs₁ e in
      update_step o message obs obs' n at_n below
        (store_all-Updated message (set obs n o) obs' (sym (ap (store_all message) is_set) ∙ k))

  store_all-some :
      (message obs : List (Observation F))
      → All (InRange (length obs)) message
      → (obs' : List (Observation F)) × (store_all message obs ≡ some obs')
  unfolding store_all
  store_all-some [] obs h = (obs, refl)
  store_all-some (o ∷ message) obs ((n, e, below), h) =
      let (obs', k) =
        store_all-some message (set obs n o)
          (subst (λ size. All (InRange size) message) (sym (length-set obs n o)) h) in
      (
        obs',
        ap (λ m. and_then m (store_all message))
              (ap (λ z. store z o obs) e ∙ store-pos n o obs below)
            ∙ k,
      )

  -- The callback faults on no message whose observers exist; and where it does not fault they all do, every
  -- observer has its last observation of the message, or the one it had where the message has
  -- none, and the stamp is the later of the two.
  pub observers_message-Updated :
      (stamp : ℕ) (message : List (Observation F)) (o : Obstacle F)
      → (All (InRange (length o.obs)) message
          → (o' : Obstacle F) × (observers_message stamp message o ≡ some o'))
        × ((o' : Obstacle F)
            → observers_message stamp message o ≡ some o'
            → Updated message o.obs o'.obs
              × (o.stamp ≤ o'.stamp)
              × (stamp ≤ o'.stamp)
              × ((o'.stamp ≡ stamp) ⊎ (o'.stamp ≡ o.stamp))
              × (record o' { obs = o.obs; stamp = o.stamp } ≡ o))
  unfolding observers_message
  observers_message-Updated stamp message o = (
    λ h.
        let (obs', e) = store_all-some message o.obs h in
        (record o { obs = obs'; stamp = if ltb o.stamp stamp then stamp else o.stamp }, rw e),
    λ o' h.
        let (obs', e, k) = and_then-some (store_all message o.obs) _ h in
        (
          subst (λ l. Updated message o.obs l)
              (ap (λ (p : Obstacle F). p.obs) (some-injective _ _ k))
              (store_all-Updated message o.obs obs' e),
          ground arith,
          ground arith,
          ground arith,
          ground arith,
        ),
  )
