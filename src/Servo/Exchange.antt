-- ===== src/Servo/Exchange.antt =====
-- The exchange of a command and its response with the throttle controller,
-- art_servo/src/throttle/devthrottle.cc: decode_char, validate_response, servo_cmd and the functions
-- that send commands.
pub mod Accepted
pub mod Answered
pub mod Digits
pub mod Delivered
pub mod Overflow
pub mod Formatted
use utexas_art_ros_pkg.Base.{
  ℕ, zero, suc, ◌+◌, ◌-◌, ◌*◌, ◌%◌, Bool, true, false, ◌&&◌, ◌||◌, not, List, [], ◌∷◌, Option, none,
  some, and_then, set, length, if◌then◌else◌, ltb, leb, ◌==◌, ◌/◌,
}
use utexas_art_ros_pkg.Servo.Packet.{
  Link, byte_at, avr_get_com, avr_get_len, avr_set_com_len, cmd_compute_csum, format_cmd, nak_cmd,
  seq_offset, status_cmd, goto_cmd, put08, put16, put32,
}

-- error numbers
abbrev pub eio : ℕ
eio = 5

abbrev pub enospc : ℕ
enospc = 28

abbrev pub max_servo_cmd_buffer : ℕ
max_servo_cmd_buffer = 48

-- The functions of <ctype.h>, on ASCII codes.
abbrev pub between : ℕ → ℕ → ℕ → Bool
between low high c = leb low c && leb c high

abbrev pub isxdigit : ℕ → Bool
isxdigit c = between 48 57 c || between 97 102 c || between 65 70 c

abbrev pub hex2int : ℕ → ℕ
hex2int c =
    if between 97 102 c
    then 10 + c - 97
    else if between 65 70 c
    then 10 + c - 65
    else (c + 256 - 48) % 256

-- The response so far, with the bytes and the digits received.
pub record Decoder : Type 0 where
  pub packet : List ℕ
  pub resp_bytes : ℕ
  pub resp_digits : ℕ

-- A write beyond the response is undefined, `none`.
abbrev pub store_byte : ℕ → ℕ → List ℕ → Option (List ℕ)
store_byte i v packet = if ltb i (length packet) then some (set packet i v) else none

-- A high digit replaces the byte; the low digit is then added with |.
abbrev pub store_high : ℕ → Decoder → Option Decoder
store_high val d =
    and_then (store_byte d.resp_bytes (val * 16 % 256) d.packet) λ p. some (record d { packet = p })

abbrev pub store_low : ℕ → Decoder → Option Decoder
store_low val d =
    and_then (store_byte d.resp_bytes (byte_at d.resp_bytes d.packet + val) d.packet)
      λ p. some (record d { packet = p; resp_bytes = suc d.resp_bytes })

-- All but hexadecimal digits is ignored.
unfoldable pub decode_char : ℕ → Decoder → Option Decoder
decode_char c d =
    let d' = record d { resp_digits = suc d.resp_digits } in
    if not (isxdigit c)
    then some d
    else if d'.resp_digits % 2 == 1
    then store_high (hex2int c) d'
    else store_low (hex2int c) d'

-- The result for a response of so many bytes; without a byte, resp_p[-1] is read.
unfoldable pub validate_response : ℕ → ℕ → List ℕ → Option ℕ
unfolding cmd_compute_csum
validate_response seq bytes packet =
    if not (bytes == avr_get_len packet)
    then some eio
    else if bytes == 0
    then none
    else if not (cmd_compute_csum packet (bytes - 1) == byte_at (bytes - 1) packet)
    then some eio
    else if not (byte_at seq_offset packet == seq)
    then some eio
    else if avr_get_com packet == nak_cmd
    then some eio
    else some 0

abbrev pub ends_line : ℕ → Bool
ends_line c = c == 13 || c == 10

-- What the device sends until read_byte fails, and the error of that.
pub record Reply : Type 0 where
  pub chars : List ℕ
  pub error : ℕ

-- The loop that reads a response packet, with the length of the line: the result and the response.
unfoldable pub read_packet : ℕ → ℕ → List ℕ → ℕ → Decoder → Option (ℕ × List ℕ)
unfolding decode_char validate_response
read_packet seq error [] linelen d = some (error, d.packet)
read_packet seq error (c ∷ cs) linelen d = elim (c == 10 && linelen == 0) [
  | true ↦ read_packet seq error cs linelen d
  | false ↦ elim (ends_line c) [
    | true ↦ and_then (validate_response seq d.resp_bytes d.packet) λ rc. some (rc, d.packet)
    | false ↦ elim (decode_char c d) [
      | none ↦ none
      | some d' ↦ elim (leb max_servo_cmd_buffer (suc linelen)) [
        | true ↦ some (enospc, d'.packet)
        | false ↦ read_packet seq error cs (suc linelen) d'
      ]
    ]
  ]
]

abbrev pub attempt : ℕ → Reply → List ℕ → Option (ℕ × List ℕ)
attempt seq r resp =
    read_packet seq r.error r.chars 0 (record { packet = resp; resp_bytes = 0; resp_digits = 0 })

-- The do-while loop over the attempts: the first reply, and those to the attempts left.
unfoldable pub attempts : ℕ → Reply → List Reply → List ℕ → Option (ℕ × List ℕ)
unfolding read_packet
attempts seq r [] resp = attempt seq r resp
attempts seq r (s ∷ rs) resp = elim (attempt seq r resp) [
  | none ↦ none
  | some (rc, resp') ↦ elim (rc == 0) [ true ↦ some (0, resp') | false ↦ attempts seq s rs resp' ]
]

-- The controller: its reply to a line at each attempt.
pub record Device : Type 0 where
  pub reply : List ℕ → ℕ → Reply

-- memset(&resp, 0xFF, sizeof(resp))
abbrev pub erased : List ℕ
erased = 255 ∷ 255 ∷ 255 ∷ 255 ∷ 255 ∷ 255 ∷ 255 ∷ 255 ∷ 255 ∷ 255 ∷ 255 ∷ 255 ∷ 255 ∷ 255 ∷ []

-- The device /dev/null always succeeds.
unfoldable pub servo_cmd : Bool → Device → Link → Option (Link × ℕ)
unfolding format_cmd attempts
servo_cmd have_tty dev l =
    let (l', line) = format_cmd l in
    if not have_tty
    then some (l', 0)
    else and_then
        (attempts l'.next_seq (dev.reply line 0) (dev.reply line 1 ∷ dev.reply line 2 ∷ []) erased)
        λ (rc, resp). some (record l' { resp = resp }, rc)

abbrev pub send : (List ℕ → List ℕ) → Bool → Device → Link → Option (Link × ℕ)
send fill have_tty dev l = servo_cmd have_tty dev (record l { cmd = fill l.cmd })

unfoldable pub send_cmd : ℕ → Bool → Device → Link → Option (Link × ℕ)
unfolding servo_cmd avr_set_com_len
send_cmd ccode = send (avr_set_com_len ccode 3)

unfoldable pub send_cmd08 : ℕ → ℕ → Bool → Device → Link → Option (Link × ℕ)
unfolding servo_cmd avr_set_com_len
send_cmd08 ccode value = send λ cmd. put08 value (avr_set_com_len ccode 4 cmd)

unfoldable pub send_cmd16 : ℕ → ℕ → Bool → Device → Link → Option (Link × ℕ)
unfolding servo_cmd avr_set_com_len
send_cmd16 ccode value = send λ cmd. put16 value (avr_set_com_len ccode 5 cmd)

unfoldable pub send_cmd32 : ℕ → ℕ → Bool → Device → Link → Option (Link × ℕ)
unfolding servo_cmd avr_set_com_len
send_cmd32 ccode value = send λ cmd. put32 value (avr_set_com_len ccode 7 cmd)

unfoldable pub send_goto : ℕ → Bool → Device → Link → Option (Link × ℕ)
unfolding send_cmd08
send_goto position = send_cmd08 goto_cmd position
