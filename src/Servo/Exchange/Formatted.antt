-- ===== src/Servo/Exchange/Formatted.antt =====
-- The commands that devthrottle.cc of art_servo/src/throttle writes to the throttle controller.
use utexas_art_ros_pkg.Base.{
  ℕ, zero, suc, ◌+◌, ◌-◌, ◌*◌, ◌/◌, ◌%◌, ◌≤◌, ◌<◌, ◌≡◌, ◌≢◌, refl, ap, sym, subst, ◌∙◌, List, [],
  ◌∷◌, ◌++◌, take, take-length, set, length, length-set, length-append, arith,
}
use utexas_art_ros_pkg.Servo.Packet.{
  Link, sum, negated, byte_at, packet_size, avr_get_com, avr_get_len, nak_cmd, following, stamped,
  cmd_compute_csum, hex_digits, format_cmd,
}
use utexas_art_ros_pkg.Servo.Packet.Checksum.{
  Bytes, negated-sum, Byte-negated, take-set_after, sum-take-suc, byte_at-set_same,
  byte_at-set_other, byte_at-take, Bytes-set,
}
use utexas_art_ros_pkg.Servo.Exchange.{max_servo_cmd_buffer}
use utexas_art_ros_pkg.Servo.Exchange.Delivered.{Frame}

-- A command that can be sent: a packet of bytes with a length that holds its header and fits.
pub record Sendable (l : Link) : Type 0 where
  pub bytes : Bytes l.cmd
  pub size : length l.cmd ≡ packet_size
  pub header : 3 ≤ avr_get_len l.cmd
  pub fits : avr_get_len l.cmd ≤ packet_size
  pub known : l.next_seq < 255

length-take : (bs : List ℕ) (n : ℕ) → n ≤ length bs → length (take n bs) ≡ n
length-take bs zero h = refl
length-take [] (suc n) h = absurd (omega arith)
length-take (b ∷ bs) (suc n) h = ap suc (length-take bs n (omega arith))

Bytes-take : (bs : List ℕ) (n : ℕ) → Bytes bs → Bytes (take n bs)
Bytes-take bs zero h = tt
Bytes-take [] (suc n) h = tt
Bytes-take (b ∷ bs) (suc n) h = (h.0, Bytes-take bs n h.1)

length-hex_digits : (bs : List ℕ) → length (hex_digits bs) ≡ length bs * 2
unfolding hex_digits
length-hex_digits [] = refl
length-hex_digits (b ∷ bs) = omega (arith, length-hex_digits bs)

-- What formatting makes of a command, and the line.
pub record Formatted (l l' : Link) (line : List ℕ) : Type 0 where
  pub known : l'.next_seq < 255
  pub new : l'.next_seq ≢ l.next_seq
  pub carries : (i : ℕ) → i ≢ 1 → i ≢ avr_get_len l.cmd - 1 → byte_at i l'.cmd ≡ byte_at i l.cmd
  pub digits : line ≡ hex_digits (take (avr_get_len l.cmd) l'.cmd) ++ 13 ∷ 10 ∷ []
  pub fits : length line ≤ max_servo_cmd_buffer
  pub frame : avr_get_com l.cmd ≢ nak_cmd → Frame l'.next_seq (take (avr_get_len l.cmd) l'.cmd)

module _ (l : Link) (s : Sendable l) where
  abbrev seq : ℕ
  seq = following l.next_seq

  abbrev numbered : List ℕ
  numbered = set l.cmd 1 seq

  abbrev len : ℕ
  len = avr_get_len l.cmd

  numbered-header : byte_at 0 numbered ≡ byte_at 0 l.cmd
  numbered-header = byte_at-set_other l.cmd 1 0 seq λ e. omega arith

  abbrev stamp : List ℕ
  stamp = set numbered (len - 1) (negated (sum (take (len - 1) numbered)))

  stamped-stamp : stamped seq l.cmd ≡ stamp
  unfolding stamped cmd_compute_csum
  stamped-stamp =
      ap (λ b. set numbered (b % 16 - 1) (negated (sum (take (b % 16 - 1) numbered))))
        numbered-header

  following-small : seq < 255
  following-small = ground arith

  following-new : seq ≢ l.next_seq
  following-new = λ e. ground (arith, s.known)

  length-stamp : length stamp ≡ packet_size
  length-stamp = length-set numbered (len - 1) _ ∙ length-set l.cmd 1 seq ∙ s.size

  stamp-header : byte_at 0 stamp ≡ byte_at 0 l.cmd
  stamp-header =
      byte_at-set_other numbered (len - 1) 0 _ (λ e. omega (arith, s.header)) ∙ numbered-header

  stamp-numbered : byte_at 1 stamp ≡ seq
  stamp-numbered =
      byte_at-set_other numbered (len - 1) 1 _ (λ e. omega (arith, s.header))
      ∙ byte_at-set_same l.cmd 1 seq (omega (arith, s.size))

  stamp-checks : sum (take len stamp) % 256 ≡ 0
  stamp-checks =
      let last : len ≡ suc (len - 1) = omega (arith, s.header) in
      let total : sum (take len stamp) ≡ sum (take (len - 1) stamp) + byte_at (len - 1) stamp =
        ap (λ m. sum (take m stamp)) last
        ∙ sum-take-suc stamp (len - 1) (omega (arith, length-stamp, s.fits, s.header)) in
      let before : sum (take (len - 1) stamp) ≡ sum (take (len - 1) numbered) =
        ap sum (take-set_after numbered (len - 1) (len - 1) _ (omega arith)) in
      let final : byte_at (len - 1) stamp ≡ negated (sum (take (len - 1) numbered)) =
        byte_at-set_same numbered (len - 1) _
          (omega (arith, length-set l.cmd 1 seq, s.size, s.fits, s.header)) in
      omega (arith, total, before, final, negated-sum (sum (take (len - 1) numbered)))

  stamp-Bytes : Bytes stamp
  stamp-Bytes =
      Bytes-set numbered (len - 1) _
        (Bytes-set l.cmd 1 seq s.bytes (omega (arith, following-small)))
        (Byte-negated (sum (take (len - 1) numbered)))

  stamp-Frame : avr_get_com l.cmd ≢ nak_cmd → Frame seq (take len stamp)
  stamp-Frame no_nak =
      let long : length (take len stamp) ≡ len =
        length-take stamp len (omega (arith, length-stamp, s.fits)) in
      let zeroth = byte_at-take stamp len 0 (omega (arith, s.header)) ∙ stamp-header in
      record {
        bytes = Bytes-take stamp len stamp-Bytes;
        header = omega (arith, long, s.header);
        size = omega (arith, long, s.fits);
        answers = record {
          as_long = ap (λ b. b % 16) zeroth ∙ sym long;
          some_byte = omega (arith, long, s.header);
          checks = ap (λ bs. sum bs % 256) (take-length (take len stamp)) ∙ stamp-checks;
          numbered = byte_at-take stamp len 1 (omega (arith, s.header)) ∙ stamp-numbered;
          no_nak = λ nak. no_nak (ap (λ b. b / 16 % 16) (sym zeroth) ∙ nak);
        };
      }

  stamp-Formatted :
      Formatted l
        (record l { next_seq = seq; cmd = stamp })
        (hex_digits (take len stamp) ++ 13 ∷ 10 ∷ [])
  stamp-Formatted =
      let long : length (take len stamp) ≡ len =
        length-take stamp len (omega (arith, length-stamp, s.fits)) in
      record {
        known = following-small;
        new = following-new;
        carries = λ i h k.
            byte_at-set_other numbered (len - 1) i _ (λ e. k (sym e))
            ∙ byte_at-set_other l.cmd 1 i seq λ e. h (sym e);
        digits = refl;
        fits = omega (
          arith,
          length-append (hex_digits (take len stamp)) (13 ∷ 10 ∷ []),
          length-hex_digits (take len stamp),
          long,
          s.fits,
        );
        frame = stamp-Frame;
      }

-- A command that can be sent is formatted with a sequence number that is new and never 255, and a checksum; all
-- other bytes are as they were. The line has its hexadecimal digits and fits in the buffer. But for
-- a NAK, the bytes that are written would be accepted as the answer to themselves: they are as many as the header
-- says, with the sequence number and the sum zero in eight bits.
pub format_cmd-Formatted : (l : Link) → Sendable l → Formatted l (format_cmd l).0 (format_cmd l).1
unfolding format_cmd
format_cmd-Formatted l s =
    let seq = following l.next_seq in
    subst
      (λ cmd.
        Formatted l (record l { next_seq = seq; cmd = cmd })
          (hex_digits (take (avr_get_len cmd) cmd) ++ 13 ∷ 10 ∷ []))
      (sym (stamped-stamp l s))
      (subst
        (λ m.
          Formatted l (record l { next_seq = seq; cmd = stamp l s })
            (hex_digits (take m (stamp l s)) ++ 13 ∷ 10 ∷ []))
        (sym (ap (λ b. b % 16) (stamp-header l s))) (stamp-Formatted l s))
