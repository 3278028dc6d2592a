-- ===== src/Servo/Relays.antt =====
-- The relays and ports of the ioadr8x device: class dev8x of art_servo/src/ioadr/dev8x.cc and dev8x.h. What
-- the serial port does is an argument of each operation.
pub mod Waits
pub mod Sawtooth
use utexas_art_ros_pkg.Base.{
  ℕ, zero, suc, ◌+◌, ◌-◌, ◌*◌, ◌%◌, Bool, true, false, ◌||◌, not, List, Option, none, some,
  and_then, get_elem?, set, if◌then◌else◌, ltb, leb, ℤ, pos, negsuc,
}
use utexas_art_ros_pkg.Numeric.{Floats}

pub data RelayState : Type 0 where
  unready ready relay_wait : RelayState

pub record Dev8x (F : Type 0) : Type 0 where
  pub have_tty : Bool
  pub state : RelayState
  pub relay_wait_time : F
  pub sim_port : List ℕ
  pub sim_relays : ℕ

-- What read() returns for one byte: the byte, 0, or -1 with the error number.
pub data Received : Type 0 where
  got : ℕ → Received
  nothing : Received
  failed : ℕ → Received

-- What an operation leaves and returns, with the value where it stores one.
pub record Access (F : Type 0) : Type 0 where
  pub dev : Dev8x F
  pub rc : ℤ
  pub value : Option ℕ

-- error numbers
abbrev pub io_error : ℤ
io_error = pos 5

abbrev pub device_busy : ℤ
device_busy = pos 16

-- the next value of a simulated port, before its limit
abbrev pub next_value : ℕ → ℕ → ℕ
next_value limit v = let next = suc v % 65536 in if leb limit next then 0 else next

module _ {F : Type 0} where
  abbrev pub refuse : ℤ → Dev8x F → Access F
  refuse rc d = record { dev = d; rc = rc; value = none }

  abbrev pub give : ℕ → Dev8x F → Access F
  give v d = record { dev = d; rc = pos 0; value = some v }

  -- the value of a relay status; a failed read returns -1
  abbrev pub relay_status : Received → Dev8x F → Access F
  relay_status (got b) d = give b d
  relay_status nothing d = if d.have_tty then refuse device_busy d else give d.sim_relays d
  relay_status (failed e) d = if d.have_tty then refuse (negsuc 0) d else give d.sim_relays d

  -- A channel beyond the ports is undefined, `none`.
  unfoldable pub sim_sawtooth : ℕ → ℕ → Dev8x F → Option (Dev8x F × ℕ)
  sim_sawtooth ch limit d =
      and_then (get_elem? d.sim_port ch)
        λ v. some (record d { sim_port = set d.sim_port ch (next_value limit v) }, v)

  abbrev pub simulate : ℕ → ℕ → Dev8x F → Option (Access F)
  simulate ch limit d = and_then (sim_sawtooth ch limit d) λ (d', v). some (give v d')

  -- the value that the last read gives, with the high byte before it
  abbrev pub port_value : Received → ℕ → ℕ → ℕ → Dev8x F → Option (Access F)
  port_value (got b) high ch limit d = some (give (high * 256 + b) d)
  port_value nothing high ch limit d =
      if d.have_tty then some (refuse io_error d) else simulate ch limit d
  port_value (failed e) high ch limit d =
      if d.have_tty then some (refuse (pos e) d) else simulate ch limit d

  -- The high byte first; if there is none, a device fails, and otherwise the 6 of the command is still there.
  abbrev pub high_then_low : Received → Received → ℕ → Dev8x F → Option (Access F)
  high_then_low (got h) low ch d = port_value low h ch 1024 d
  high_then_low nothing low ch d =
      if d.have_tty then some (refuse io_error d) else port_value low 6 ch 1024 d
  high_then_low (failed e) low ch d =
      if d.have_tty then some (refuse (pos e) d) else port_value low 6 ch 1024 d

module _ {F : Type 0} ⦃fl : Floats F⦄ where
  -- MIN_RELAY_WAIT
  abbrev pub min_relay_wait : F
  min_relay_wait = fl.ddiv (fl.of_int (pos 8)) (fl.of_int (pos 100))

  abbrev pub waited : F → Dev8x F → Bool
  waited now d = fl.lt min_relay_wait (fl.dsub now d.relay_wait_time)

  abbrev pub busy_in : RelayState → F → Dev8x F → Dev8x F × Bool
  busy_in relay_wait now d = if waited now d then (record d { state = ready }, false) else (d, true)
  busy_in _ now d = (d, false)

  -- whether the last write of the relays has not completed
  unfoldable pub relays_busy : F → Dev8x F → Dev8x F × Bool
  relays_busy now d = busy_in d.state now d

  unfoldable pub query_relays : F → Received → Dev8x F → Access F
  unfolding relays_busy
  query_relays now reply d =
      let (d', busy) = relays_busy now d in
      if busy then refuse device_busy d' else relay_status reply d'

  unfoldable pub read_8bit_port : F → Received → ℕ → Dev8x F → Option (Access F)
  unfolding relays_busy sim_sawtooth
  read_8bit_port now reply ch d =
      let (d', busy) = relays_busy now d in
      if busy then some (refuse device_busy d') else port_value reply 0 ch 256 d'

  -- The assertion on the channel ends the program, `none`.
  unfoldable pub read_10bit_port : F → Received → Received → ℕ → Dev8x F → Option (Access F)
  unfolding relays_busy sim_sawtooth
  read_10bit_port now high low ch d =
      let (d', busy) = relays_busy now d in
      if busy
      then some (refuse device_busy d')
      else if ltb ch 3
      then none
      else high_then_low high low ch d'

  -- what write() returns for the four bytes: their number, or -(e + 1) for the error
  -- number e + 1
  abbrev pub written : ℤ → F → Dev8x F → Access F
  written (pos n) now d = if leb n 3 || leb 5 n then refuse io_error d else record {
    dev = record d { relay_wait_time = now; state = relay_wait };
    rc = pos 0;
    value = none;
  }
  written (negsuc e) now d = refuse (pos (suc e)) d

  -- The assertion that the device is set up ends the program, `none`. `now'` is the time after the write.
  abbrev pub write_relays : RelayState → ℤ → F → Dev8x F → Option (Access F)
  write_relays ready wrote now' d = some (written wrote now' d)
  write_relays _ wrote now' d = none

  unfoldable pub set_relays : F → F → ℤ → ℕ → Dev8x F → Option (Access F)
  unfolding relays_busy
  set_relays now now' wrote bitmask d =
      let (d', busy) = relays_busy now d in
      if busy
      then some (refuse device_busy d')
      else if not d'.have_tty
      then some (record { dev = record d' { sim_relays = bitmask }; rc = pos 0; value = none })
      else write_relays d'.state wrote now' d'
