-- ===== src/Servo/Exchange/Overflow.antt =====
-- A response of the throttle controller that is too long for the structure that devthrottle.cc of
-- art_servo/src/throttle stores it in.
use utexas_art_ros_pkg.Base.{
  ℕ, ◌+◌, ◌*◌, ◌<◌, ◌≡◌, refl, ap, ◌∙◌, List, ◌∷◌, ◌++◌, none, length, arith,
}
use utexas_art_ros_pkg.Servo.Packet.{packet_size, int2hex, hex_digits}
use utexas_art_ros_pkg.Servo.Packet.Checksum.{Bytes}
use utexas_art_ros_pkg.Servo.Exchange.{store_byte, decode_char, read_packet, Reply, attempt}
use utexas_art_ros_pkg.Servo.Exchange.Digits.{
  after, write_at, read_packet-hex_digits, write_at-Bytes, int2hex-isxdigit, int2hex-goes_on,
  int2hex-no_newline,
}

decode_char-none :
    (packet : List ℕ) (n : ℕ)
    → n < 16
    → length packet ≡ packet_size
    → decode_char (int2hex n) (after packet packet_size) ≡ none
unfolding decode_char
decode_char-none packet n h size =
    let full : (v : ℕ) → store_byte 14 v packet ≡ none = λ v. ground arith in
    rw (int2hex-isxdigit n h, full _) refl

read_packet-none :
    (seq error n m : ℕ) (cs packet : List ℕ)
    → n < 16
    → length packet ≡ packet_size
    → read_packet seq error (int2hex n ∷ cs) m (after packet packet_size) ≡ none
unfolding read_packet
read_packet-none seq error n m cs packet h size =
    rw
      (int2hex-no_newline n m h, int2hex-goes_on n h, decode_char-none packet n h size, read_packet)
      refl

-- A line of 28 hexadecimal digits and one more writes beyond the 14 bytes of the response, whatever follows.
pub attempt_overflow :
    (seq n : ℕ) (bs rest resp : List ℕ) (r : Reply)
    → Bytes bs
    → Bytes resp
    → length bs ≡ packet_size
    → length resp ≡ packet_size
    → n < 16
    → r.chars ≡ hex_digits bs ++ int2hex n ∷ rest
    → attempt seq r resp ≡ none
attempt_overflow seq n bs rest resp r b c long size h e =
    let written = write_at-Bytes bs resp 0 b c in
    let whole : 0 + length bs ≡ packet_size = omega (arith, long) in
    ap (λ chars. read_packet seq r.error chars 0 (after resp 0)) e
    ∙ read_packet-hex_digits seq r.error bs (int2hex n ∷ rest) resp 0 b (omega (arith, long, size))
        (omega (arith, size))
    ∙ ap (λ m. read_packet seq r.error (int2hex n ∷ rest) (m * 2) (after (write_at 0 bs resp) m))
        whole
    ∙ read_packet-none seq r.error n 28 rest (write_at 0 bs resp) h (written.1 ∙ size)
