-- ===== src/Servo/Exchange/Digits.antt =====
-- How the hexadecimal digits of a packet are read back, decode_char of art_servo/src/throttle/devthrottle.cc.
use utexas_art_ros_pkg.Base.{
  ℕ, zero, suc, ◌+◌, ◌*◌, ◌/◌, ◌%◌, ◌≤◌, ◌<◌, ◌≡◌, refl, ap, sym, ◌∙◌, true, false, ◌&&◌, List, [],
  ◌∷◌, ◌++◌, some, take, set, length, length-set, append_assoc, append-nil, arith, ◌==◌, leb,
}
use utexas_art_ros_pkg.Servo.Packet.{byte_at, packet_size, int2hex, hex_digits}
use utexas_art_ros_pkg.Servo.Packet.Checksum.{Bytes, byte_at-set_same, Bytes-set, take-set_last}
use utexas_art_ros_pkg.Servo.Exchange.{
  isxdigit, hex2int, Decoder, store_byte, decode_char, read_packet, ends_line, max_servo_cmd_buffer,
}

pub int2hex-isxdigit : (n : ℕ) → n < 16 → isxdigit (int2hex n) ≡ true
int2hex-isxdigit n h = ground arith

hex2int-int2hex : (n : ℕ) → n < 16 → hex2int (int2hex n) ≡ n
hex2int-int2hex n h = ground arith

pub int2hex-goes_on : (n : ℕ) → n < 16 → ends_line (int2hex n) ≡ false
int2hex-goes_on n h = ground arith

pub int2hex-no_newline : (n k : ℕ) → n < 16 → (int2hex n == 10 && k == 0) ≡ false
int2hex-no_newline n k h = ground arith

set-set : (bs : List ℕ) (i v w : ℕ) → set (set bs i v) i w ≡ set bs i w
set-set [] i v w = refl
set-set (b ∷ bs) zero v w = refl
set-set (b ∷ bs) (suc i) v w = ap (◌∷◌ b) (set-set bs i v w)

-- the decoder after so many bytes
abbrev pub after : List ℕ → ℕ → Decoder
after packet k = record { packet = packet; resp_bytes = k; resp_digits = k * 2 }

decode-high :
    (packet : List ℕ) (k n : ℕ)
    → n < 16
    → k < length packet
    → decode_char (int2hex n) (after packet k)
      ≡ some (record { packet = set packet k (n * 16); resp_bytes = k; resp_digits = suc (k * 2) })
unfolding decode_char
decode-high packet k n h below =
    let odd : (suc (k * 2) % 2 == 1) ≡ true = ground arith in
    let in_bounds : store_byte k (n * 16 % 256) packet ≡ some (set packet k (n * 16)) =
      ground arith in
    rw (int2hex-isxdigit n h, odd, hex2int-int2hex n h, in_bounds) refl

decode-low :
    (packet : List ℕ) (k m n : ℕ)
    → n < 16
    → k < length packet
    → decode_char
        (int2hex n)
        (record { packet = set packet k (m * 16); resp_bytes = k; resp_digits = suc (k * 2) })
      ≡ some (after (set packet k (m * 16 + n)) (suc k))
unfolding decode_char
decode-low packet k m n h below =
    let even : (suc (suc (k * 2)) % 2 == 1) ≡ false = ground arith in
    let old : byte_at k (set packet k (m * 16)) ≡ m * 16 =
      byte_at-set_same packet k (m * 16) below in
    let long : k < length (set packet k (m * 16)) = omega (arith, length-set packet k (m * 16)) in
    let in_bounds : store_byte k (m * 16 + n) (set packet k (m * 16))
        ≡ some (set packet k (m * 16 + n)) =
      ground (arith, set-set packet k (m * 16) (m * 16 + n)) in
    let twice : suc k * 2 ≡ suc (suc (k * 2)) = omega arith in
    rw (int2hex-isxdigit n h, even, hex2int-int2hex n h, old, in_bounds, twice) refl

-- One more character of a line.
read-more :
    (seq error c : ℕ) (cs : List ℕ) (linelen : ℕ) (d e : Decoder)
    → (c == 10 && linelen == 0) ≡ false
    → ends_line c ≡ false
    → decode_char c d ≡ some e
    → suc linelen < max_servo_cmd_buffer
    → read_packet seq error (c ∷ cs) linelen d ≡ read_packet seq error cs (suc linelen) e
unfolding read_packet
read-more seq error c cs linelen d e more goes_on decoded h =
    let room : leb max_servo_cmd_buffer (suc linelen) ≡ false = ground arith in
    rw (more, goes_on, decoded, room, read_packet) refl

read-digit :
    (seq error n : ℕ) (cs : List ℕ) (linelen : ℕ) (d e : Decoder)
    → n < 16
    → decode_char (int2hex n) d ≡ some e
    → suc linelen < max_servo_cmd_buffer
    → read_packet seq error (int2hex n ∷ cs) linelen d ≡ read_packet seq error cs (suc linelen) e
read-digit seq error n cs linelen d e small decoded h =
    read-more seq error (int2hex n) cs linelen d e (int2hex-no_newline n linelen small)
      (int2hex-goes_on n small) decoded h

read-byte :
    (seq error b : ℕ) (cs packet : List ℕ) (k : ℕ)
    → b < 256
    → k < length packet
    → suc (suc (k * 2)) < max_servo_cmd_buffer
    → read_packet seq error (int2hex (b / 16 % 16) ∷ int2hex (b % 16) ∷ cs) (k * 2) (after packet k)
      ≡ read_packet seq error cs (suc k * 2) (after (set packet k b) (suc k))
read-byte seq error b cs packet k small below room =
    let whole : b / 16 % 16 * 16 + b % 16 ≡ b = omega arith in
    let twice : suc (suc (k * 2)) ≡ suc k * 2 = omega arith in
    read-digit seq error (b / 16 % 16) _ (k * 2) _ _ (omega arith)
      (decode-high packet k (b / 16 % 16) (omega arith) below) (omega arith)
    ∙ read-digit seq error (b % 16) cs (suc (k * 2)) _ _ (omega arith)
        (decode-low packet k (b / 16 % 16) (b % 16) (omega arith) below) room
    ∙ ap (λ v. read_packet seq error cs (suc (suc (k * 2))) (after (set packet k v) (suc k))) whole
    ∙ ap (λ linelen. read_packet seq error cs linelen (after (set packet k b) (suc k))) twice

-- the bytes written into a packet from an index on
abbrev pub write_at : ℕ → List ℕ → List ℕ → List ℕ
write_at k [] packet = packet
write_at k (b ∷ bs) packet = write_at (suc k) bs (set packet k b)

pub read_packet-hex_digits :
    (seq error : ℕ) (bs cs packet : List ℕ) (k : ℕ)
    → Bytes bs
    → k + length bs ≤ length packet
    → length packet ≤ packet_size
    → read_packet seq error (hex_digits bs ++ cs) (k * 2) (after packet k)
      ≡ read_packet seq error cs
          ((k + length bs) * 2)
          (after (write_at k bs packet) (k + length bs))
unfolding hex_digits
read_packet-hex_digits seq error [] cs packet k b h size =
    ap (λ m. read_packet seq error cs (m * 2) (after packet m)) (omega arith)
read_packet-hex_digits seq error (x ∷ bs) cs packet k b h size =
    read-byte seq error x (hex_digits bs ++ cs) packet k b.0 (omega arith) (omega arith)
    ∙ read_packet-hex_digits seq error bs cs (set packet k x) (suc k) b.1
        (omega (arith, length-set packet k x)) (omega (arith, length-set packet k x))
    ∙ ap (λ m. read_packet seq error cs (m * 2) (after (write_at (suc k) bs (set packet k x)) m))
        (omega arith)

pub take-write_at :
    (bs packet : List ℕ) (k : ℕ)
    → k + length bs ≤ length packet
    → take (k + length bs) (write_at k bs packet) ≡ take k packet ++ bs
take-write_at [] packet k h =
    ap (λ m. take m packet) (omega arith) ∙ sym (append-nil (take k packet))
take-write_at (x ∷ bs) packet k h =
    ap (λ m. take m (write_at (suc k) bs (set packet k x))) (omega arith)
    ∙ take-write_at bs (set packet k x) (suc k) (omega (arith, length-set packet k x))
    ∙ ap (λ front. front ++ bs) (take-set_last packet k x (omega arith))
    ∙ append_assoc (take k packet) (x ∷ []) bs

pub write_at-Bytes :
    (bs packet : List ℕ) (k : ℕ)
    → Bytes bs
    → Bytes packet
    → Bytes (write_at k bs packet) × (length (write_at k bs packet) ≡ length packet)
write_at-Bytes [] packet k b h = (h, refl)
write_at-Bytes (x ∷ bs) packet k b h =
    let rest = write_at-Bytes bs (set packet k x) (suc k) b.1 (Bytes-set packet k x h b.0) in
    (rest.0, rest.1 ∙ length-set packet k x)
