-- ===== src/Tests/ServoRuns.antt =====
-- Runs of the throttle protocol and of the relays of art_servo/src at concrete inputs.
use utexas_art_ros_pkg.Base.{
  ◌++◌, none, ℤ, pos, Bool, ℕ, zero, suc, ◌+◌, ◌*◌, ◌%◌, ◌^◌, ◌≤◌, ◌≡◌, ◌↔◌, refl, true, List, [],
  ◌∷◌, some, set, if◌then◌else◌, ◌==◌, arith,
}
use utexas_art_ros_pkg.Servo.Packet.{
  int2hex, Link, byte_at, packet_size, avr_set_com_len, put08, put16, put32, hex_digits, format_cmd,
}
use utexas_art_ros_pkg.Servo.Packet.Commands.{Holds, commands-Holds}
use utexas_art_ros_pkg.Servo.Exchange.{Reply, attempt, eio, Device, validate_response, servo_cmd}
use utexas_art_ros_pkg.Numeric.{whole}
use utexas_art_ros_pkg.Servo.Relays.{RelayState, Dev8x, set_relays}
use utexas_art_ros_pkg.Servo.Relays.Waits.{Set, set_relays-Set}
use utexas_art_ros_pkg.Servo.Exchange.Accepted.{
  Accepted, validate_response-Accepted, change-rejected,
}
use utexas_art_ros_pkg.Servo.Exchange.Overflow.{attempt_overflow}
use utexas_art_ros_pkg.Servo.Exchange.Answered.{servo_cmd-Answered}
use utexas_art_ros_pkg.Servo.Exchange.Delivered.{Delivered, servo_cmd-Delivered}
use utexas_art_ros_pkg.Servo.Exchange.Formatted.{Formatted, format_cmd-Formatted}

-- an acknowledgement of the command 1, in a packet with zeros after it
abbrev ack : List ℕ
ack = 3 ∷ 1 ∷ 252 ∷ []

abbrev ack_packet : List ℕ
ack_packet = 3 ∷ 1 ∷ 252 ∷ 0 ∷ 0 ∷ 0 ∷ 0 ∷ 0 ∷ 0 ∷ 0 ∷ 0 ∷ 0 ∷ 0 ∷ 0 ∷ []

abbrev zeros : List ℕ
zeros = 0 ∷ 0 ∷ 0 ∷ 0 ∷ 0 ∷ 0 ∷ 0 ∷ 0 ∷ 0 ∷ 0 ∷ 0 ∷ 0 ∷ 0 ∷ 0 ∷ []

-- a query of the status, the first command
abbrev query : Link
query = record {
  next_seq = 0;
  cmd = 35 ∷ 0 ∷ 0 ∷ 0 ∷ 0 ∷ 0 ∷ 0 ∷ 0 ∷ 0 ∷ 0 ∷ 0 ∷ 0 ∷ 0 ∷ 0 ∷ [];
  resp = zeros;
}

-- Silent at first, then it acknowledges.
abbrev slow : Device
slow = record {
  reply = λ line i. record {
    chars = if i == 0 then [] else 48 ∷ 51 ∷ 48 ∷ 49 ∷ 102 ∷ 99 ∷ 13 ∷ [];
    error = 16;
  };
}

abbrev success : ℕ
success = 0

abbrev answered : Link
answered = record {
  next_seq = 1;
  cmd = 35 ∷ 1 ∷ 220 ∷ 0 ∷ 0 ∷ 0 ∷ 0 ∷ 0 ∷ 0 ∷ 0 ∷ 0 ∷ 0 ∷ 0 ∷ 0 ∷ [];
  resp = 3 ∷ 1 ∷ 252 ∷ 255 ∷ 255 ∷ 255 ∷ 255 ∷ 255 ∷ 255 ∷ 255 ∷ 255 ∷ 255 ∷ 255 ∷ 255 ∷ [];
}

validate_response-Accepted_example :
    (validate_response 1 3 ack_packet ≡ some 0) ↔ Accepted 1 3 ack_packet
validate_response-Accepted_example =
    validate_response-Accepted 1 3 ack_packet (ground arith) (omega arith)

change-rejected_example : validate_response 1 3 (set ack_packet 1 2) ≡ some eio
unfolding validate_response
change-rejected_example =
    change-rejected 1 3 1 2 ack_packet (ground arith) (omega arith) refl (omega arith) (omega arith)
      (omega arith) (λ e. omega arith)

servo_cmd-Answered_example :
    (answered.next_seq ≡ (format_cmd query).0.next_seq)
    × (answered.cmd ≡ (format_cmd query).0.cmd)
    × (success ≡ 0 → (n : ℕ) × (n ≤ packet_size) × Accepted answered.next_seq n answered.resp)
unfolding servo_cmd
servo_cmd-Answered_example =
    servo_cmd-Answered slow (λ line i e. omega arith) query answered success refl

servo_cmd-Delivered_example :
    (l' : Link) × (servo_cmd true slow query ≡ some (l', 0)) × Delivered query l' ack
unfolding format_cmd hex_digits
servo_cmd-Delivered_example =
    servo_cmd-Delivered slow query ack [] 1
      (record {
        bytes = ground arith;
        header = omega arith;
        size = omega arith;
        answers = record {
          as_long = refl;
          some_byte = omega arith;
          checks = refl;
          numbered = refl;
          no_nak = λ e. omega arith;
        };
      })
      (record {
        in_time = omega arith;
        silent = elim [ zero ↦ λ h. (refl, λ e. omega arith) | suc j ↦ λ h. absurd (omega arith) ];
        frame = refl;
      })

format_cmd-Formatted_example : Formatted query (format_cmd query).0 (format_cmd query).1
format_cmd-Formatted_example = format_cmd-Formatted query (record {
  bytes = ground arith;
  size = refl;
  header = omega arith;
  fits = omega arith;
  known = omega arith;
})

commands-Holds_example :
    Holds 4 3 (avr_set_com_len 4 3 zeros)
    × (Holds 4 4 (put08 70000 (avr_set_com_len 4 4 zeros))
        × (byte_at 2 (put08 70000 (avr_set_com_len 4 4 zeros)) ≡ 70000 % 2 ^ 8))
    × (Holds 4 5 (put16 70000 (avr_set_com_len 4 5 zeros))
        × (byte_at 2 (put16 70000 (avr_set_com_len 4 5 zeros)) * 256
              + byte_at 3 (put16 70000 (avr_set_com_len 4 5 zeros))
            ≡ 70000 % 2 ^ 16))
    × (Holds 4 7 (put32 70000 (avr_set_com_len 4 7 zeros))
        × (byte_at 2 (put32 70000 (avr_set_com_len 4 7 zeros)) * 2 ^ 24
              + byte_at 3 (put32 70000 (avr_set_com_len 4 7 zeros)) * 2 ^ 16
              + byte_at 4 (put32 70000 (avr_set_com_len 4 7 zeros)) * 2 ^ 8
              + byte_at 5 (put32 70000 (avr_set_com_len 4 7 zeros))
            ≡ 70000))
commands-Holds_example =
    commands-Holds 4 70000 zeros (omega arith) (omega arith) (ground arith) refl

-- relays with simulated ports, and with a real device
abbrev relays_with : Bool → Dev8x ℤ
relays_with tty = record {
  have_tty = tty;
  state = RelayState.ready;
  relay_wait_time = pos 0;
  sim_port = 254 ∷ 255 ∷ 0 ∷ [];
  sim_relays = 0;
}

set_relays-Set_example : Set (pos 3) 5 (relays_with true) (record {
  dev = record (relays_with true) { relay_wait_time = pos 3; state = RelayState.relay_wait };
  rc = pos 0;
  value = none;
})
unfolding set_relays
set_relays-Set_example =
    set_relays-Set (pos 2) (pos 3) (pos 4) 5 (relays_with true)
      (record {
        dev = record (relays_with true) { relay_wait_time = pos 3; state = RelayState.relay_wait };
        rc = pos 0;
        value = none;
      })
      refl refl

-- the digits of a whole packet, and one more
abbrev chatter : Reply
chatter = record { chars = hex_digits ack_packet ++ int2hex 0 ∷ []; error = 16 }

attempt_overflow_example : attempt 1 chatter zeros ≡ none
attempt_overflow_example =
    attempt_overflow 1 0 ack_packet [] zeros chatter (ground arith) (ground arith) refl refl
      (omega arith) refl
