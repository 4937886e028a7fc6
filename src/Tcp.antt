-- ===== src/Tcp.antt =====
-- proto/tcp: the TCP module.
pub mod Defs
pub mod Seq
pub mod Queue
pub mod Inout
pub mod Output
pub mod Inv
pub mod Options
pub mod Receive
pub mod Interface
pub mod Tool
pub mod Arrive
pub mod Deliver
pub mod Timer
pub mod Handler
pub mod Unreach
pub mod States
pub mod Trim
mod Samples
mod Tests
