-- ===== src/Servo/Packet/Commands.antt =====
-- The data of the commands that send_cmd08, send_cmd16 and send_cmd32 of
-- art_servo/src/throttle/devthrottle.cc put into a packet.
use utexas_art_ros_pkg.Base.{ℕ, ◌+◌, ◌*◌, ◌%◌, ◌^◌, ◌<◌, ◌≡◌, refl, List, ◌∷◌, length, arith}
use utexas_art_ros_pkg.Servo.Packet.{
  byte_at, packet_size, avr_get_com, avr_get_len, avr_set_com_len, put08, put16, put32,
}
use utexas_art_ros_pkg.Servo.Packet.Checksum.{Bytes}

-- A packet with the code and the length.
pub record Holds (ccode len : ℕ) (cmd : List ℕ) : Type 0 where
  pub code : avr_get_com cmd ≡ ccode
  pub long : avr_get_len cmd ≡ len
  pub bytes : Bytes cmd
  pub size : length cmd ≡ packet_size

-- The code, the length and the data that a receiver reads are those of the command, for each size of the data
-- field, which is big-endian; the packet stays one of 14 bytes.
pub commands-Holds :
    (ccode value : ℕ) (cmd : List ℕ)
    → ccode < 16
    → value < 2 ^ 32
    → Bytes cmd
    → length cmd ≡ packet_size
    → Holds ccode 3 (avr_set_com_len ccode 3 cmd)
      × (Holds ccode 4 (put08 value (avr_set_com_len ccode 4 cmd))
          × (byte_at 2 (put08 value (avr_set_com_len ccode 4 cmd)) ≡ value % 2 ^ 8))
      × (Holds ccode 5 (put16 value (avr_set_com_len ccode 5 cmd))
          × (byte_at 2 (put16 value (avr_set_com_len ccode 5 cmd)) * 256
                + byte_at 3 (put16 value (avr_set_com_len ccode 5 cmd))
              ≡ value % 2 ^ 16))
      × (Holds ccode 7 (put32 value (avr_set_com_len ccode 7 cmd))
          × (byte_at 2 (put32 value (avr_set_com_len ccode 7 cmd)) * 2 ^ 24
                + byte_at 3 (put32 value (avr_set_com_len ccode 7 cmd)) * 2 ^ 16
                + byte_at 4 (put32 value (avr_set_com_len ccode 7 cmd)) * 2 ^ 8
                + byte_at 5 (put32 value (avr_set_com_len ccode 7 cmd))
              ≡ value))
unfolding avr_set_com_len
commands-Holds ccode value (b₀ ∷ b₁ ∷ b₂ ∷ b₃ ∷ b₄ ∷ b₅ ∷ bs) small h
      (c₀, (c₁, (c₂, (c₃, (c₄, (c₅, cs)))))) n =
    (
      record {
        code = omega arith;
        long = omega arith;
        bytes = (omega arith, (c₁, (c₂, (c₃, (c₄, (c₅, cs))))));
        size = n;
      },
      (
        record {
          code = omega arith;
          long = omega arith;
          bytes = (omega arith, (c₁, (omega arith, (c₃, (c₄, (c₅, cs))))));
          size = n;
        },
        refl,
      ),
      (
        record {
          code = omega arith;
          long = omega arith;
          bytes = (omega arith, (c₁, (omega arith, (omega arith, (c₄, (c₅, cs))))));
          size = n;
        },
        omega arith,
      ),
      (
        record {
          code = omega arith;
          long = omega arith;
          bytes =
              (omega arith, (c₁, (omega arith, (omega arith, (omega arith, (omega arith, cs))))));
          size = n;
        },
        omega arith,
      ),
    )
commands-Holds ccode value _ small h b n = absurd (omega arith)
