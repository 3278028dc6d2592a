-- ===== src/Servo/Relays/Sawtooth.antt =====
-- The simulated ports of art_servo/src/ioadr/dev8x.cc.
use native.Mathlib.Nat.{suc-mod, mod-eq_of_lt, mod_self, mod-lt}
use mathlib.Core.Option.{some-injective}
use utexas_art_ros_pkg.Base.{
  ℕ, zero, suc, ◌%◌, ◌≤◌, ◌<◌, ◌≡◌, refl, sym, ap, ◌∙◌, subst, inl, inr, Bool-cases, leb, length,
  List, [], ◌∷◌, some, get_elem?, set, arith,
}
use utexas_art_ros_pkg.Servo.Relays.{Dev8x, next_value, sim_sawtooth}

-- the values of a sawtooth wave from one on, so many of them
abbrev pub wave : ℕ → ℕ → ℕ → List ℕ
wave limit v zero = []
wave limit v (suc n) = v % limit ∷ wave limit (suc v) n

next_value-at : (limit w : ℕ) → w < limit → limit ≤ 65535 → next_value limit w ≡ suc w % limit
next_value-at limit w h small = elim (Bool-cases (leb limit (suc w))) [
  | inl top ↦
      let end : limit ≡ suc w = ground arith in
      let whole : suc w % 65536 ≡ suc w = omega arith in
      rw (whole, top) (sym (ap (λ m. suc w % m) end ∙ mod_self (suc w)))
  | inr below ↦
      let whole : suc w % 65536 ≡ suc w = omega arith in
      rw (whole, below) (sym (mod-eq_of_lt (ground arith)))
]

next_value-wave :
    (limit v : ℕ) → 1 ≤ limit → limit ≤ 65535 → next_value limit (v % limit) ≡ suc v % limit
next_value-wave limit v one small =
    next_value-at limit (v % limit) (mod-lt v (omega arith)) small ∙ sym (suc-mod v limit)

module _ {F : Type 0} where
  -- Reads of a port, one after another, with the values that they return in their order.
  pub data Reads (ch limit : ℕ) : Dev8x F → List ℕ → Type 0 where
    done : {d : Dev8x F} → Reads ch limit d []
    again :
        {d d' : Dev8x F} {v : ℕ} {vs : List ℕ}
        → sim_sawtooth ch limit d ≡ some (d', v)
        → Reads ch limit d' vs
        → Reads ch limit d (v ∷ vs)

get_elem?-set :
    (vs : List ℕ) (i v w : ℕ) → get_elem? vs i ≡ some v → get_elem? (set vs i w) i ≡ some w
get_elem?-set [] i v w h = cc
get_elem?-set (x ∷ vs) zero v w h = refl
get_elem?-set (x ∷ vs) (suc i) v w h = get_elem?-set vs i v w h

module _ {F : Type 0} where
  sim_sawtooth-some :
      (ch limit v w : ℕ) (d e : Dev8x F)
      → get_elem? d.sim_port ch ≡ some v
      → sim_sawtooth ch limit d ≡ some (e, w)
      → (v ≡ w) × (get_elem? e.sim_port ch ≡ some (next_value limit v))
  unfolding sim_sawtooth
  sim_sawtooth-some ch limit v w d e at_v h =
      let same = some-injective _ _ (rw at_v at h) in
      (
        ap (λ (q : Dev8x F × ℕ). q.1) same,
        subst (λ (q : Dev8x F × ℕ). get_elem? q.0.sim_port ch ≡ some (next_value limit v)) same
            (get_elem?-set d.sim_port ch v (next_value limit v) at_v),
      )

  -- Any number of reads of a simulated port, with a limit of 1 to 65535, return the numbers that follow its value,
  -- counted up to the limit, where they start again from 0.
  pub Reads-wave :
      (ch limit v : ℕ) (d : Dev8x F) (vs : List ℕ)
      → 1 ≤ limit
      → limit ≤ 65535
      → get_elem? d.sim_port ch ≡ some (v % limit)
      → Reads ch limit d vs
      → vs ≡ wave limit v (length vs)
  Reads-wave ch limit v _ _ one small h done = refl
  Reads-wave ch limit v _ _ one small h (again {d} {d'} {v = w} {vs} read rest) =
      let (same, next) = sim_sawtooth-some ch limit (v % limit) w d d' h read in
      ap (λ x. x ∷ vs) (sym same)
      ∙ ap (◌∷◌ (v % limit)) (
          Reads-wave ch limit (suc v) d' vs one small
            (next ∙ ap some (next_value-wave limit v one small)) rest)
