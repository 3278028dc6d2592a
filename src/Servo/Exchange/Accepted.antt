-- ===== src/Servo/Exchange/Accepted.antt =====
-- Which responses of the throttle controller devthrottle.cc of art_servo/src/throttle accepts.
use utexas_art_ros_pkg.Base.{
  ℕ, suc, ◌+◌, ◌-◌, ◌%◌, ◌≤◌, ◌<◌, ◌≡◌, ◌≢◌, ◌↔◌, ◌⊎◌, inl, inr, ap, ◌∙◌, List, some, take, set,
  length, length-set, arith,
}
use utexas_art_ros_pkg.Servo.Packet.{
  sum, negated, byte_at, avr_get_com, avr_get_len, cmd_compute_csum, nak_cmd,
}
use utexas_art_ros_pkg.Servo.Packet.Checksum.{
  Bytes, negated-sum, negated_unique, sum-take-suc, sum-take-set, Byte-at, Bytes-set,
}
use utexas_art_ros_pkg.Servo.Exchange.{eio, validate_response}

-- A response of so many bytes that answers the command with a sequence number.
pub record Accepted (seq bytes : ℕ) (packet : List ℕ) : Type 0 where
  pub as_long : avr_get_len packet ≡ bytes
  pub some_byte : 1 ≤ bytes
  pub checks : sum (take bytes packet) % 256 ≡ 0
  pub numbered : byte_at 1 packet ≡ seq
  pub no_nak : avr_get_com packet ≢ nak_cmd

-- the bytes before the checksum and the checksum
checksum_iff :
    (packet : List ℕ) (n : ℕ)
    → Bytes packet
    → 1 ≤ n
    → n ≤ length packet
    → (negated (sum (take (n - 1) packet)) ≡ byte_at (n - 1) packet)
      ↔ (sum (take n packet) % 256 ≡ 0)
checksum_iff packet n b h k =
    let last : n ≡ suc (n - 1) = omega arith in
    let total : sum (take n packet) ≡ sum (take (n - 1) packet) + byte_at (n - 1) packet =
      ap (λ m. sum (take m packet)) last ∙ sum-take-suc packet (n - 1) (omega arith) in
    (
      λ e. omega (arith, total, e, negated-sum (sum (take (n - 1) packet))),
      λ e.
          negated_unique (sum (take (n - 1) packet)) (byte_at (n - 1) packet)
            (Byte-at packet (n - 1) b) (omega (arith, total, e)),
    )

validate-cases :
    (seq n : ℕ) (packet : List ℕ)
    → 1 ≤ n
    → (validate_response seq n packet ≡ some eio) ⊎ (validate_response seq n packet ≡ some 0)
unfolding validate_response
validate-cases seq n packet h = ground arith

validate-checks :
    (seq n : ℕ) (packet : List ℕ)
    → (validate_response seq n packet ≡ some 0) ↔ (
        (avr_get_len packet ≡ n)
        × (1 ≤ n)
        × (cmd_compute_csum packet (n - 1) ≡ byte_at (n - 1) packet)
        × (byte_at 1 packet ≡ seq)
        × (avr_get_com packet ≢ nak_cmd))
unfolding validate_response
validate-checks seq n packet = ground arith

-- The response is valid exactly if it is as long as it says, has a byte, its bytes add up to zero in eight
-- bits, it has the sequence number, and it is no NAK.
pub validate_response-Accepted :
    (seq n : ℕ) (packet : List ℕ)
    → Bytes packet
    → n ≤ length packet
    → (validate_response seq n packet ≡ some 0) ↔ Accepted seq n packet
unfolding cmd_compute_csum
validate_response-Accepted seq n packet b h = (
  λ e.
      let (len, one, csum, numbered, no_nak) = (validate-checks seq n packet).0 e in
      record {
        as_long = len;
        some_byte = one;
        checks = (checksum_iff packet n b one h).0 csum;
        numbered = numbered;
        no_nak = no_nak;
      },
  λ a. (validate-checks seq n packet).1 (
    a.as_long,
    a.some_byte,
    (checksum_iff packet n b a.some_byte h).1 a.checks,
    a.numbered,
    a.no_nak,
  ),
)

-- A valid response in which any one byte but the first is changed is rejected with EIO.
pub change-rejected :
    (seq n i v : ℕ) (packet : List ℕ)
    → Bytes packet
    → n ≤ length packet
    → validate_response seq n packet ≡ some 0
    → 1 ≤ i
    → i < n
    → v < 256
    → v ≢ byte_at i packet
    → validate_response seq n (set packet i v) ≡ some eio
change-rejected seq n i v packet b h e one below small differs =
    let a = (validate_response-Accepted seq n packet b h).0 e in
    let long : n ≤ length (set packet i v) = omega (arith, length-set packet i v) in
    elim (validate-cases seq n (set packet i v) a.some_byte) [
      | inl rejected ↦ rejected
      | inr valid ↦
          let a' =
            (validate_response-Accepted seq n (set packet i v) (Bytes-set packet i v b small)
                long).0
              valid in
          absurd (
            differs (
              omega (
                arith,
                a.checks,
                a'.checks,
                Byte-at packet i b,
                sum-take-set packet i n v below h,
              )))
    ]
