-- ===== src/Sting.antt =====
-- sting: the kernel.
pub mod Clock
pub mod Handles
pub mod Ports
pub mod Routes
pub mod Queues
pub mod Expire
pub mod Handlers
pub mod Dgram
pub mod Fragm
pub mod Memory
pub mod Heap
pub mod Reassembly
pub mod Kernel
pub mod Icmp
pub mod Send
mod Tests
