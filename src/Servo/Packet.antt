-- ===== src/Servo/Packet.antt =====
-- The packets of the throttle controller, art_servo/src/throttle: struct avr_cmd of avr_controller.h as the
-- 14 bytes of its layout, the codes of art_command_protocol.h, and the commands that
-- devthrottle.cc puts together and formats as hexadecimal digits.
pub mod Checksum
pub mod Commands
use utexas_art_ros_pkg.Base.{
  ℕ, zero, suc, ◌+◌, ◌-◌, ◌*◌, ◌/◌, ◌%◌, List, [], ◌∷◌, ◌++◌, take, set, get_or, length,
  if◌then◌else◌, ltb, leb,
}

abbrev pub packet_size : ℕ
packet_size = 14

-- the offsets of a packet
abbrev pub com_offset : ℕ
com_offset = 0

abbrev pub seq_offset : ℕ
seq_offset = 1

abbrev pub data_offset : ℕ
data_offset = 2

-- the command codes that are tested or sent here
abbrev pub nak_cmd : ℕ
nak_cmd = 1

abbrev pub status_cmd : ℕ
status_cmd = 2

abbrev pub goto_cmd : ℕ
goto_cmd = 3

abbrev pub byte_at : ℕ → List ℕ → ℕ
byte_at i packet = get_or packet i 0

-- avr_set_com_len, for a length below 16, which | adds to the code
unfoldable pub avr_set_com_len : ℕ → ℕ → List ℕ → List ℕ
avr_set_com_len ccode len cmd = set cmd com_offset ((ccode * 16 + len) % 256)

abbrev pub avr_get_com : List ℕ → ℕ
avr_get_com packet = byte_at com_offset packet / 16 % 16

abbrev pub avr_get_len : List ℕ → ℕ
avr_get_len packet = byte_at com_offset packet % 16

abbrev pub sum : List ℕ → ℕ
sum [] = 0
sum (b ∷ bs) = b + sum bs

-- the negation of a sum in eight bits
abbrev pub negated : ℕ → ℕ
negated raw_sum = (256 - raw_sum % 256) % 256

unfoldable pub cmd_compute_csum : List ℕ → ℕ → ℕ
cmd_compute_csum buffer len = negated (sum (take len buffer))

-- the character of a nibble
abbrev pub int2hex : ℕ → ℕ
int2hex n = if ltb n 10 then 48 + n else 87 + n

-- two digits for each byte
unfoldable pub hex_digits : List ℕ → List ℕ
hex_digits [] = []
hex_digits (b ∷ bs) = int2hex (b / 16 % 16) ∷ int2hex (b % 16) ∷ hex_digits bs

-- The driver's side of the line: the last sequence number, the command and the last response.
pub record Link : Type 0 where
  pub next_seq : ℕ
  pub cmd : List ℕ
  pub resp : List ℕ

-- 255 is left out: the controller uses it as unknown.
abbrev pub following : ℕ → ℕ
following seq = if leb 255 (suc seq) then 0 else suc seq

-- the command with its sequence number and checksum; its length is at least 3
unfoldable pub stamped : ℕ → List ℕ → List ℕ
unfolding cmd_compute_csum
stamped seq cmd =
    let numbered = set cmd seq_offset seq in
    let len = avr_get_len numbered in set numbered (len - 1) (cmd_compute_csum numbered (len - 1))

-- the line for the device, which ends in a carriage return and a newline
unfoldable pub format_cmd : Link → Link × List ℕ
unfolding stamped hex_digits
format_cmd l =
    let seq = following l.next_seq in
    let cmd = stamped seq l.cmd in
    (
      record l { next_seq = seq; cmd = cmd },
      hex_digits (take (avr_get_len cmd) cmd) ++ 13 ∷ 10 ∷ [],
    )

-- The data fields, big-endian.
abbrev pub put08 : ℕ → List ℕ → List ℕ
put08 value cmd = set cmd data_offset (value % 256)

abbrev pub put16 : ℕ → List ℕ → List ℕ
put16 value cmd = set (set cmd data_offset (value / 256 % 256)) 3 (value % 256)

abbrev pub put32 : ℕ → List ℕ → List ℕ
put32 value cmd =
    set (set (put16 (value / 65536 % 65536) cmd) 4 (value / 256 % 256)) 5 (value % 256)
