-- ===== src/Servo/Relays/Waits.antt =====
-- When the relays may be used again: relays_busy of art_servo/src/ioadr/dev8x.cc.
use mathlib.Core.Option.{some-injective}
use utexas_art_ros_pkg.Base.{
  ℕ, ◌≡◌, ◌⊎◌, subst, refl, ap, ◌∙◌, inl, inr, Bool-cases, true, false, some, ℤ, pos, negsuc, arith,
}
use utexas_art_ros_pkg.Numeric.{Floats}
use utexas_art_ros_pkg.Servo.Relays.{
  RelayState, unready, ready, relay_wait, Dev8x, Received, got, nothing, Access, device_busy,
  refuse, give, waited, query_relays, read_8bit_port, read_10bit_port, set_relays, written,
}

module _ {F : Type 0} ⦃fl : Floats F⦄ where
  -- Every operation refuses with EBUSY and leaves the device alone.
  pub record Refused (now : F) (d : Dev8x F) : Type 0 where
    pub queries : (r : Received) → query_relays now r d ≡ refuse device_busy d
    pub reads8 : (r : Received) (ch : ℕ) → read_8bit_port now r ch d ≡ some (refuse device_busy d)
    pub reads10 :
        (h l : Received) (ch : ℕ) → read_10bit_port now h l ch d ≡ some (refuse device_busy d)
    pub sets :
        (now' : F) (wrote : ℤ) (bitmask : ℕ)
        → set_relays now now' wrote bitmask d ≡ some (refuse device_busy d)

  -- What follows when the relays are set.
  pub record Set (now' : F) (bitmask : ℕ) (d : Dev8x F) (a : Access F) : Type 0 where
    -- a device that is simulated, from which nothing is read, has the relays at once
    pub simulated :
        d.have_tty ≡ false → (later : F) → query_relays later nothing a.dev ≡ give bitmask a.dev
    -- a device refuses until the wait is over, and then gives what it reads
    pub refused :
        d.have_tty ≡ true
        → (later : F)
        → fl.lt (fl.ddiv (fl.of_int (pos 8)) (fl.of_int (pos 100))) (fl.dsub later now') ≡ false
        → Refused later a.dev
    pub over :
        d.have_tty ≡ true
        → (later : F) (b : ℕ)
        → fl.lt (fl.ddiv (fl.of_int (pos 8)) (fl.of_int (pos 100))) (fl.dsub later now') ≡ true
        → query_relays later (got b) a.dev ≡ give b (record (a.dev) { state = ready })

  relay_wait-Refused :
      (now : F) (d : Dev8x F) → d.state ≡ relay_wait → waited now d ≡ false → Refused now d
  unfolding query_relays read_8bit_port read_10bit_port set_relays
  relay_wait-Refused now d h k = record {
    queries = λ r. rw (h, k) refl;
    reads8 = λ r ch. rw (h, k) refl;
    reads10 = λ a b ch. rw (h, k) refl;
    sets = λ now' wrote bitmask. rw (h, k) refl;
  }

  written-waits :
      (wrote : ℤ) (now' : F) (d a : Dev8x F)
      → (written wrote now' d).rc ≡ pos 0
      → (written wrote now' d).dev ≡ a
      → (a.state ≡ relay_wait) × (a.relay_wait_time ≡ now')
  written-waits (pos n) now' d a h k = ground arith
  written-waits (negsuc n) now' d a h k = cc

  waits-in :
      (s : RelayState) (now now' : F) (wrote : ℤ) (bitmask : ℕ) (d : Dev8x F) (a : Access F)
      → d.state ≡ s
      → set_relays now now' wrote bitmask d ≡ some a
      → d.have_tty ≡ true
      → a.rc ≡ pos 0
      → (a.dev.state ≡ relay_wait) × (a.dev.relay_wait_time ≡ now')
  unfolding set_relays
  waits-in unready now now' wrote bitmask d a s e h k = cc (rw (s, h) at e)
  waits-in ready now now' wrote bitmask d a s e h k =
      let same = some-injective _ _ (rw (s, h) at e) in
      written-waits wrote now' _ a.dev (ap (λ (b : Access F). b.rc) same ∙ k)
        (ap (λ (b : Access F). b.dev) same)
  waits-in relay_wait now now' wrote bitmask d a s e h k = elim (Bool-cases (waited now d)) [
    | inr busy ↦
        let same = some-injective _ _ (rw (s, busy) at e) in
        cc (ap (λ (b : Access F). b.rc) same ∙ k)
    | inl over ↦
        let same = some-injective _ _ (rw (s, over, h) at e) in
        written-waits wrote now' _ a.dev (ap (λ (b : Access F). b.rc) same ∙ k)
          (ap (λ (b : Access F). b.dev) same)
  ]

  -- A simulated device keeps the relays, and does not wait.
  abbrev Keeps : ℕ → Dev8x F → Type 0
  Keeps bitmask d =
      (d.have_tty ≡ false) × (d.sim_relays ≡ bitmask) × ((d.state ≡ ready) ⊎ (d.state ≡ unready))

  simulated-in :
      (s : RelayState) (now now' : F) (wrote : ℤ) (bitmask : ℕ) (d : Dev8x F) (a : Access F)
      → d.state ≡ s
      → set_relays now now' wrote bitmask d ≡ some a
      → d.have_tty ≡ false
      → a.rc ≡ pos 0
      → Keeps bitmask a.dev
  unfolding set_relays
  simulated-in unready now now' wrote bitmask d a s e h k =
      subst (λ (b : Access F). Keeps bitmask b.dev) (some-injective _ _ (rw (s, h) at e))
        (refl, refl, inr refl)
  simulated-in ready now now' wrote bitmask d a s e h k =
      subst (λ (b : Access F). Keeps bitmask b.dev) (some-injective _ _ (rw (s, h) at e))
        (refl, refl, inl refl)
  simulated-in relay_wait now now' wrote bitmask d a s e h k = elim (Bool-cases (waited now d)) [
    | inr busy ↦
        let same = some-injective _ _ (rw (s, busy) at e) in
        cc (ap (λ (b : Access F). b.rc) same ∙ k)
    | inl over ↦
        subst (λ (b : Access F). Keeps bitmask b.dev) (some-injective _ _ (rw (s, over, h) at e))
          (refl, refl, inl refl)
  ]

  Keeps-gives :
      (later : F) (bitmask : ℕ) (d : Dev8x F)
      → Keeps bitmask d
      → query_relays later nothing d ≡ give bitmask d
  unfolding query_relays
  Keeps-gives later bitmask d (tty, relays, inl st) = rw (st, tty, relays) refl
  Keeps-gives later bitmask d (tty, relays, inr st) = rw (st, tty, relays) refl

  -- Setting the relays with success, where its assertion does not end the program: a simulated device gives the
  -- relays back at once; any other refuses every operation with EBUSY, unchanged, as long as the minimal
  -- wait after the write is not over, and once it is gives the relays that it reads.
  pub set_relays-Set :
      (now now' : F) (wrote : ℤ) (bitmask : ℕ) (d : Dev8x F) (a : Access F)
      → set_relays now now' wrote bitmask d ≡ some a
      → a.rc ≡ pos 0
      → Set now' bitmask d a
  unfolding query_relays
  set_relays-Set now now' wrote bitmask d a e k = record {
    simulated = λ h later.
        Keeps-gives later bitmask a.dev
          (simulated-in d.state now now' wrote bitmask d a refl e h k);
    refused = λ h later short.
        let (st, time) = waits-in d.state now now' wrote bitmask d a refl e h k in
        relay_wait-Refused later a.dev st (rw time short);
    over = λ h later b long.
        let (st, time) = waits-in d.state now now' wrote bitmask d a refl e h k in
        rw (st, time, long) refl;
  }
