-- ===== src/Serial.antt =====
-- ports/serial: the driver of the serial ports, with its framing by SLIP or PPP.
pub mod Slip
pub mod Port
pub mod Ppp
pub mod Dgram
pub mod Sending
mod Tests
