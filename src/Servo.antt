-- ===== src/Servo.antt =====
-- The servo drivers of art_servo/src: the protocol of the throttle controller, and the relays.
pub mod Packet
pub mod Exchange
pub mod Relays
