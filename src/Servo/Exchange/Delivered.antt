-- ===== src/Servo/Exchange/Delivered.antt =====
-- How a response of the throttle controller reaches devthrottle.cc of art_servo/src/throttle.
use utexas_art_ros_pkg.Base.{
  ℕ, zero, suc, ◌+◌, ◌*◌, ◌/◌, ◌%◌, ◌≤◌, ◌<◌, ◌≡◌, ◌≢◌, refl, ap, sym, ◌∙◌, true, false, List, [],
  ◌∷◌, ◌++◌, Option, some, and_then, take, take-length, length, arith, ◌==◌,
}
use utexas_art_ros_pkg.Servo.Packet.{Link, sum, byte_at, packet_size, hex_digits, format_cmd}
use utexas_art_ros_pkg.Servo.Packet.Checksum.{Bytes, byte_at-take}
use utexas_art_ros_pkg.Servo.Exchange.{
  validate_response, read_packet, Reply, attempt, attempts, erased, Device, servo_cmd,
}
use utexas_art_ros_pkg.Servo.Exchange.Accepted.{Accepted, validate_response-Accepted}
use utexas_art_ros_pkg.Servo.Exchange.Digits.{
  after, write_at, read_packet-hex_digits, take-write_at, write_at-Bytes,
}

-- A whole packet, which answers the command with a sequence number.
pub record Frame (seq : ℕ) (p : List ℕ) : Type 0 where
  pub bytes : Bytes p
  pub header : 2 ≤ length p
  pub size : length p ≤ packet_size
  pub answers : Accepted seq (length p) p

Frame-written :
    (seq : ℕ) (p packet : List ℕ)
    → Frame seq p
    → take (length p) packet ≡ p
    → Accepted seq (length p) packet
Frame-written seq p packet f e =
    let same : (i : ℕ) → i < length p → byte_at i p ≡ byte_at i packet =
      λ i h. ap (byte_at i) (sym e) ∙ byte_at-take packet (length p) i h in
    record {
      as_long = ap (λ b. b % 16) (sym (same 0 (omega (arith, f.header)))) ∙ f.answers.as_long;
      some_byte = f.answers.some_byte;
      checks = ap (λ bs. sum bs % 256) (e ∙ sym (take-length p)) ∙ f.answers.checks;
      numbered = sym (same 1 f.header) ∙ f.answers.numbered;
      no_nak =
          λ nak. f.answers.no_nak (ap (λ b. b / 16 % 16) (same 0 (omega (arith, f.header))) ∙ nak);
    }

read-end :
    (seq error n m : ℕ) (rest packet : List ℕ)
    → validate_response seq n packet ≡ some 0
    → read_packet seq error (13 ∷ rest) m (after packet n) ≡ some (0, packet)
unfolding read_packet
read-end seq error n m rest packet valid =
    ap (λ (o : Option ℕ). and_then o λ rc. some (rc, packet)) valid

attempt-Frame :
    (seq : ℕ) (p rest resp : List ℕ) (r : Reply)
    → Frame seq p
    → Bytes resp
    → length resp ≡ packet_size
    → r.chars ≡ hex_digits p ++ 13 ∷ rest
    → (attempt seq r resp ≡ some (0, write_at 0 p resp)) × (take (length p) (write_at 0 p resp) ≡ p)
attempt-Frame seq p rest resp r f b size e =
    let written = write_at-Bytes p resp 0 f.bytes b in
    let start : 0 + length p ≡ length p = omega arith in
    let front =
      ap (λ m. take m (write_at 0 p resp)) (sym start)
      ∙ take-write_at p resp 0 (omega (arith, f.size, size)) in
    let valid =
      (validate_response-Accepted seq (length p) (write_at 0 p resp) written.0
          (omega (arith, written.1, f.size, size))).1
        (Frame-written seq p (write_at 0 p resp) f front) in
    (
      ap (λ chars. read_packet seq r.error chars 0 (after resp 0)) e
          ∙ read_packet-hex_digits seq r.error p (13 ∷ rest) resp 0 f.bytes
              (omega (arith, f.size, size)) (omega (arith, size))
          ∙ ap (λ m. read_packet seq r.error (13 ∷ rest) (m * 2) (after (write_at 0 p resp) m))
              start
          ∙ read-end seq r.error (length p) (length p * 2) rest (write_at 0 p resp) valid,
      front,
    )

attempt-silent :
    (seq : ℕ) (resp : List ℕ) (r : Reply) → r.chars ≡ [] → attempt seq r resp ≡ some (r.error, resp)
unfolding read_packet
attempt-silent seq resp r e = ap (λ chars. read_packet seq r.error chars 0 (after resp 0)) e

attempts-done :
    (seq : ℕ) (r : Reply) (rs : List Reply) (resp q : List ℕ)
    → attempt seq r resp ≡ some (0, q)
    → attempts seq r rs resp ≡ some (0, q)
unfolding attempts
attempts-done seq r [] resp q h = h
attempts-done seq r (t ∷ rs) resp q h = rw (h, attempts) refl

attempts-silent :
    (seq : ℕ) (r t : Reply) (rs : List Reply) (resp : List ℕ)
    → r.chars ≡ []
    → r.error ≢ 0
    → attempts seq r (t ∷ rs) resp ≡ attempts seq t rs resp
unfolding attempts
attempts-silent seq r t rs resp h k =
    let fails : (r.error == 0) ≡ false = ground arith in
    rw (attempt-silent seq resp r h, fails, attempts) refl

-- What a command leaves when the response of the device was a packet.
pub record Delivered (l l' : Link) (p : List ℕ) : Type 0 where
  pub next_seq : l'.next_seq ≡ (format_cmd l).0.next_seq
  pub cmd : l'.cmd ≡ (format_cmd l).0.cmd
  pub response : take (length p) l'.resp ≡ p

-- The reply to the attempt i is the frame, and there is none to those before it.
pub record Replies (dev : Device) (l : Link) (p rest : List ℕ) (i : ℕ) : Type 0 where
  pub in_time : i ≤ 2
  pub silent :
      (j : ℕ)
      → j < i
      → ((dev.reply (format_cmd l).1 j).chars ≡ []) × ((dev.reply (format_cmd l).1 j).error ≢ 0)
  pub frame : (dev.reply (format_cmd l).1 i).chars ≡ hex_digits p ++ 13 ∷ rest

attempts-Replies :
    (dev : Device) (l : Link) (p rest : List ℕ) (i seq : ℕ) (q : List ℕ)
    → Replies dev l p rest i
    → attempt seq (dev.reply (format_cmd l).1 i) erased ≡ some (0, q)
    → attempts seq
        (dev.reply (format_cmd l).1 0)
        (dev.reply (format_cmd l).1 1 ∷ dev.reply (format_cmd l).1 2 ∷ [])
        erased
      ≡ some (0, q)
attempts-Replies dev l p rest zero seq q h a = attempts-done seq _ _ erased q a
attempts-Replies dev l p rest (suc zero) seq q h a =
    let lost = h.silent 0 (omega arith) in
    attempts-silent seq _ _ _ erased lost.0 lost.1 ∙ attempts-done seq _ _ erased q a
attempts-Replies dev l p rest (suc (suc zero)) seq q h a =
    let lost = h.silent 0 (omega arith) in
    let lost' = h.silent 1 (omega arith) in
    attempts-silent seq _ _ _ erased lost.0 lost.1
    ∙ attempts-silent seq _ _ _ erased lost'.0 lost'.1
    ∙ attempts-done seq _ _ erased q a
attempts-Replies dev l p rest (suc (suc (suc i))) seq q h a = absurd (omega (arith, h.in_time))

-- When the device answers one of the three attempts, after none or silent ones, with the hexadecimal digits of
-- a packet that answers the command, and a carriage return, then the command succeeds, whatever follows on the
-- line, and the bytes of the packet are the first ones of the response.
pub servo_cmd-Delivered :
    (dev : Device) (l : Link) (p rest : List ℕ) (i : ℕ)
    → Frame (format_cmd l).0.next_seq p
    → Replies dev l p rest i
    → (l' : Link) × (servo_cmd true dev l ≡ some (l', 0)) × Delivered l l' p
unfolding servo_cmd
servo_cmd-Delivered dev l p rest i f h =
    let seq = (format_cmd l).0.next_seq in
    let read = attempt-Frame seq p rest erased _ f (ground arith) refl h.frame in
    let done = attempts-Replies dev l p rest i seq (write_at 0 p erased) h read.0 in
    (
      record ((format_cmd l).0) { resp = write_at 0 p erased },
      rw done refl,
      record { next_seq = refl; cmd = refl; response = read.1 },
    )
