-- ===== src/Servo/Packet/Checksum.antt =====
-- What the checksum of art_servo/src/throttle/devthrottle.cc, cmd_compute_csum, detects.
use utexas_art_ros_pkg.Base.{
  ℕ, zero, suc, ◌+◌, ◌%◌, ◌≤◌, ◌<◌, ◌≡◌, ◌≢◌, refl, ap, List, [], ◌∷◌, ◌++◌, take, set, length, All,
  arith,
}
use utexas_art_ros_pkg.Servo.Packet.{sum, negated, byte_at}

-- the bytes
abbrev pub Bytes : List ℕ → Type 0
Bytes packet = All (λ b. b < 256) packet

pub negated-sum : (raw_sum : ℕ) → (raw_sum + negated raw_sum) % 256 ≡ 0
negated-sum raw_sum = omega arith

pub negated_unique : (raw_sum b : ℕ) → b < 256 → (raw_sum + b) % 256 ≡ 0 → negated raw_sum ≡ b
negated_unique raw_sum b h e = omega arith

pub Byte-negated : (raw_sum : ℕ) → negated raw_sum < 256
Byte-negated raw_sum = omega arith

pub take-set_after : (bs : List ℕ) (i n v : ℕ) → n ≤ i → take n (set bs i v) ≡ take n bs
take-set_after [] i n v h = refl
take-set_after (b ∷ bs) i zero v h = refl
take-set_after (b ∷ bs) zero (suc n) v h = absurd (omega arith)
take-set_after (b ∷ bs) (suc i) (suc n) v h = ap (◌∷◌ b) (take-set_after bs i n v (omega arith))

-- the sum of the bytes up to an index that is in the packet
pub sum-take-suc :
    (bs : List ℕ) (n : ℕ) → n < length bs → sum (take (suc n) bs) ≡ sum (take n bs) + byte_at n bs
sum-take-suc [] n h = absurd (omega arith)
sum-take-suc (b ∷ []) zero h = omega arith
sum-take-suc (b ∷ c ∷ bs) zero h = omega arith
sum-take-suc (b ∷ bs) (suc n) h = omega (arith, sum-take-suc bs n (omega arith))

pub sum-take-set :
    (bs : List ℕ) (i n v : ℕ)
    → i < n
    → n ≤ length bs
    → sum (take n (set bs i v)) + byte_at i bs ≡ sum (take n bs) + v
sum-take-set [] i n v h k = absurd (omega arith)
sum-take-set (b ∷ bs) i zero v h k = absurd (omega arith)
sum-take-set (b ∷ bs) zero (suc n) v h k = omega arith
sum-take-set (b ∷ bs) (suc i) (suc n) v h k =
    omega (arith, sum-take-set bs i n v (omega arith) (omega arith))

pub byte_at-set_same : (bs : List ℕ) (i v : ℕ) → i < length bs → byte_at i (set bs i v) ≡ v
byte_at-set_same [] i v h = absurd (omega arith)
byte_at-set_same (b ∷ bs) zero v h = refl
byte_at-set_same (b ∷ bs) (suc i) v h = byte_at-set_same bs i v (omega arith)

pub byte_at-set_other : (bs : List ℕ) (i j v : ℕ) → i ≢ j → byte_at j (set bs i v) ≡ byte_at j bs
byte_at-set_other [] i j v h = refl
byte_at-set_other (b ∷ bs) zero zero v h = absurd (h refl)
byte_at-set_other (b ∷ bs) zero (suc j) v h = refl
byte_at-set_other (b ∷ bs) (suc i) zero v h = refl
byte_at-set_other (b ∷ bs) (suc i) (suc j) v h = byte_at-set_other bs i j v (λ e. h (ap suc e))

pub Byte-at : (bs : List ℕ) (i : ℕ) → Bytes bs → byte_at i bs < 256
Byte-at [] i h = omega arith
Byte-at (b ∷ bs) zero h = h.0
Byte-at (b ∷ bs) (suc i) h = Byte-at bs i h.1

pub Bytes-set : (bs : List ℕ) (i v : ℕ) → Bytes bs → v < 256 → Bytes (set bs i v)
Bytes-set [] i v h k = tt
Bytes-set (b ∷ bs) zero v h k = (k, h.1)
Bytes-set (b ∷ bs) (suc i) v h k = (h.0, Bytes-set bs i v h.1 k)

pub take-set_last :
    (bs : List ℕ) (k v : ℕ) → k < length bs → take (suc k) (set bs k v) ≡ take k bs ++ v ∷ []
take-set_last [] k v h = absurd (omega arith)
take-set_last (b ∷ []) zero v h = refl
take-set_last (b ∷ c ∷ bs) zero v h = refl
take-set_last (b ∷ bs) (suc k) v h = ap (◌∷◌ b) (take-set_last bs k v (omega arith))

pub byte_at-take : (bs : List ℕ) (n i : ℕ) → i < n → byte_at i (take n bs) ≡ byte_at i bs
byte_at-take bs zero i h = absurd (omega arith)
byte_at-take [] (suc n) i h = refl
byte_at-take (b ∷ bs) (suc n) zero h = refl
byte_at-take (b ∷ bs) (suc n) (suc i) h = byte_at-take bs n i (omega arith)
