-- ===== src/Servo/Exchange/Answered.antt =====
-- What a command of art_servo/src/throttle/devthrottle.cc that succeeds has received.
use mathlib.Core.Option.{some-injective}
use utexas_art_ros_pkg.Base.{
  ℕ, suc, ◌+◌, ◌*◌, ◌%◌, ◌≤◌, ◌<◌, ◌≡◌, ◌≢◌, inl, inr, refl, ap, sym, subst, ◌∙◌, true, ◌&&◌,
  Bool-cases, List, [], ◌∷◌, some, and_then-some, set, length, length-set, All, arith, ◌==◌, leb,
  Option-cases, ==_iff,
}
use utexas_art_ros_pkg.Servo.Packet.{Link, byte_at, packet_size, format_cmd}
use utexas_art_ros_pkg.Servo.Packet.Checksum.{Bytes, byte_at-set_same, Byte-at, Bytes-set}
use utexas_art_ros_pkg.Servo.Exchange.{
  enospc, isxdigit, hex2int, Decoder, store_byte, store_high, store_low, decode_char,
  validate_response, read_packet, ends_line, max_servo_cmd_buffer, Reply, attempt, attempts, erased,
  Device, servo_cmd,
}
use utexas_art_ros_pkg.Servo.Exchange.Accepted.{Accepted, validate_response-Accepted}

-- A response of bytes, in bounds; after a high digit the low half of its byte is zero.
record Sane (d : Decoder) : Type 0 where
  bytes : Bytes d.packet
  size : length d.packet ≡ packet_size
  within : d.resp_bytes ≤ packet_size
  half : d.resp_digits % 2 ≡ 1 → byte_at d.resp_bytes d.packet % 16 ≡ 0

hex2int-nibble : (c : ℕ) → isxdigit c ≡ true → hex2int c < 16
hex2int-nibble c h = ground arith

store_byte-some :
    (i v : ℕ) (p q : List ℕ) → store_byte i v p ≡ some q → (i < length p) × (q ≡ set p i v)
store_byte-some i v p q h = ground arith

-- the count of digits goes on with the digit
abbrev count : Decoder → Decoder
count d = record d { resp_digits = suc d.resp_digits }

store_high-Sane : (val : ℕ) (d e : Decoder) → Sane d → store_high val (count d) ≡ some e → Sane e
store_high-Sane val d e s h =
    let v = val * 16 % 256 in
    let (p, k, same) = and_then-some (store_byte d.resp_bytes v d.packet) _ h in
    let (below, is_set) = store_byte-some d.resp_bytes v d.packet p k in
    subst Sane (some-injective _ _ same) (
      subst (λ q. Sane (record (count d) { packet = q })) (sym is_set)
        (record {
          bytes = Bytes-set d.packet d.resp_bytes v s.bytes (omega arith);
          size = length-set d.packet d.resp_bytes v ∙ s.size;
          within = s.within;
          half =
              λ _. ap (λ b. b % 16) (byte_at-set_same d.packet d.resp_bytes v below) ∙ omega arith;
        }))

store_low-Sane :
    (val : ℕ) (d e : Decoder)
    → Sane d
    → val < 16
    → d.resp_digits % 2 ≡ 1
    → store_low val (count d) ≡ some e
    → Sane e
store_low-Sane val d e s small odd h =
    let v = byte_at d.resp_bytes d.packet + val in
    let (p, k, same) = and_then-some (store_byte d.resp_bytes v d.packet) _ h in
    let (below, is_set) = store_byte-some d.resp_bytes v d.packet p k in
    subst Sane (some-injective _ _ same) (
      subst (λ q. Sane (record (count d) { packet = q; resp_bytes = suc d.resp_bytes }))
        (sym is_set)
        (record {
          bytes =
              Bytes-set d.packet d.resp_bytes v s.bytes
                (omega (arith, Byte-at d.packet d.resp_bytes s.bytes, s.half odd));
          size = length-set d.packet d.resp_bytes v ∙ s.size;
          within = omega (arith, s.size);
          half = λ even. absurd (omega arith);
        }))

decode_char-Sane : (c : ℕ) (d e : Decoder) → Sane d → decode_char c d ≡ some e → Sane e
unfolding decode_char
decode_char-Sane c d e s h = elim (Bool-cases (isxdigit c)) [
  | inr ignored ↦ subst Sane (some-injective _ _ (rw ignored at h)) s
  | inl digit ↦ elim (Bool-cases (suc d.resp_digits % 2 == 1)) [
    | inl high ↦ store_high-Sane (hex2int c) d e s (rw (digit, high) at h)
    | inr low ↦
        store_low-Sane (hex2int c) d e s (hex2int-nibble c digit) (ground arith)
          (rw (digit, low) at h)
  ]
]

-- A response that a reading leaves, and what it has been accepted for if the result is 0.
record Read (seq rc : ℕ) (packet : List ℕ) : Type 0 where
  bytes : Bytes packet
  size : length packet ≡ packet_size
  answered : rc ≡ 0 → (n : ℕ) × (n ≤ packet_size) × Accepted seq n packet

failed-Read : (seq rc : ℕ) (d : Decoder) → Sane d → rc ≢ 0 → Read seq rc d.packet
failed-Read seq rc d s h = record { bytes = s.bytes; size = s.size; answered = λ e. absurd (h e) }

validated-Read :
    (seq rc : ℕ) (d : Decoder)
    → Sane d
    → validate_response seq d.resp_bytes d.packet ≡ some rc
    → Read seq rc d.packet
validated-Read seq rc d s h = record {
  bytes = s.bytes;
  size = s.size;
  answered = λ e. (
    d.resp_bytes,
    s.within,
    (validate_response-Accepted seq d.resp_bytes d.packet s.bytes
          (omega (arith, s.size, s.within))).0
        (h ∙ ap some e),
  );
}

read_packet-Read :
    (seq error : ℕ) (chars : List ℕ) (linelen : ℕ) (d : Decoder) (p : ℕ × List ℕ)
    → Sane d
    → error ≢ 0
    → read_packet seq error chars linelen d ≡ some p
    → Read seq p.0 p.1
unfolding read_packet
read_packet-Read seq error [] linelen d p s fails h =
    subst (λ (q : ℕ × List ℕ). Read seq q.0 q.1) (some-injective _ _ h)
      (failed-Read seq error d s fails)
read_packet-Read seq error (c ∷ cs) linelen d p s fails h =
    elim (Bool-cases (c == 10 && linelen == 0)) [
      | inl leading ↦
          read_packet-Read seq error cs linelen d p s fails (rw (leading, read_packet) at h)
      | inr more ↦ elim (Bool-cases (ends_line c)) [
        | inl ends ↦
            let (rc, valid, same) =
              and_then-some (validate_response seq d.resp_bytes d.packet) _
                (rw (more, ends, read_packet) at h) in
            subst (λ (q : ℕ × List ℕ). Read seq q.0 q.1) (some-injective _ _ same)
              (validated-Read seq rc d s valid)
        | inr goes_on ↦ elim (Option-cases (decode_char c d)) [
          | inl undefined ↦ cc (rw (more, goes_on, undefined, read_packet) at h)
          | inr (e, decoded) ↦ elim (Bool-cases (leb max_servo_cmd_buffer (suc linelen))) [
            | inl full ↦
                subst (λ (q : ℕ × List ℕ). Read seq q.0 q.1)
                  (some-injective _ _ (rw (more, goes_on, decoded, full, read_packet) at h))
                  (failed-Read seq enospc e (decode_char-Sane c d e s decoded) (λ z. omega arith))
            | inr room ↦
                read_packet-Read seq error cs (suc linelen) e p (decode_char-Sane c d e s decoded)
                  fails (rw (more, goes_on, decoded, room, read_packet) at h)
          ]
        ]
      ]
    ]

fresh-Sane :
    (resp : List ℕ)
    → Bytes resp
    → length resp ≡ packet_size
    → Sane (record { packet = resp; resp_bytes = 0; resp_digits = 0 })
fresh-Sane resp b h = record {
  bytes = b;
  size = h;
  within = omega arith;
  half = λ odd. absurd (omega arith);
}

attempts-Read :
    (seq : ℕ) (r : Reply) (rs : List Reply) (resp : List ℕ) (p : ℕ × List ℕ)
    → All (λ (t : Reply). t.error ≢ 0) (r ∷ rs)
    → Bytes resp
    → length resp ≡ packet_size
    → attempts seq r rs resp ≡ some p
    → Read seq p.0 p.1
unfolding attempts
attempts-Read seq r [] resp p fails b h e =
    read_packet-Read seq r.error r.chars 0 _ p (fresh-Sane resp b h) fails.0 e
attempts-Read seq r (t ∷ rs) resp p fails b h e = elim (Option-cases (attempt seq r resp)) [
  | inl undefined ↦ cc (rw (undefined, attempts) at e)
  | inr ((rc, left), one) ↦
      let read =
        read_packet-Read seq r.error r.chars 0 _ (rc, left) (fresh-Sane resp b h) fails.0 one in
      elim (Bool-cases (rc == 0)) [
        | inl done ↦
            subst (λ (q : ℕ × List ℕ). Read seq q.0 q.1)
              (some-injective _ _ (rw (one, done, attempts) at e))
              (subst (λ z. Read seq z left) ((==_iff rc 0).0 done) read)
        | inr failed ↦
            attempts-Read seq t rs left p fails.1 read.bytes read.size
              (rw (one, failed, attempts) at e)
      ]
]

erased-Bytes : Bytes erased
erased-Bytes = ground arith

-- A command to a device whose reads end in an error number: where it ends without a write out of bounds, the
-- sequence number is the next one and the command is the one formatted; and if it succeeds the response has at
-- most the bytes of a packet, and is as long as it says, with the sum zero in eight bits and the command's
-- sequence number, and no NAK.
pub servo_cmd-Answered :
    (dev : Device)
    → ((line : List ℕ) (i : ℕ) → (dev.reply line i).error ≢ 0)
    → (l l' : Link) (rc : ℕ) → servo_cmd true dev l ≡ some (l', rc)
    → (l'.next_seq ≡ (format_cmd l).0.next_seq)
      × (l'.cmd ≡ (format_cmd l).0.cmd)
      × (rc ≡ 0 → (n : ℕ) × (n ≤ packet_size) × Accepted l'.next_seq n l'.resp)
unfolding servo_cmd
servo_cmd-Answered dev fails l l' rc h =
    let sent = (format_cmd l).0 in
    let line = (format_cmd l).1 in
    let (p, tried, same) =
      and_then-some
        (attempts sent.next_seq (dev.reply line 0) (dev.reply line 1 ∷ dev.reply line 2 ∷ [])
          erased)
        _ h in
    let read =
      attempts-Read sent.next_seq (dev.reply line 0) (dev.reply line 1 ∷ dev.reply line 2 ∷ [])
        erased p (fails line 0, (fails line 1, (fails line 2, tt))) erased-Bytes refl tried in
    subst
      (λ (q : Link × ℕ).
        (q.0.next_seq ≡ sent.next_seq)
        × (q.0.cmd ≡ sent.cmd)
        × (q.1 ≡ 0 → (n : ℕ) × (n ≤ packet_size) × Accepted q.0.next_seq n q.0.resp))
      (some-injective _ _ same) (refl, refl, read.answered)
