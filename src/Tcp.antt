-- ===== src/Tcp.antt =====
-- The transmission control protocol of tcp.cpp.
pub mod State
pub mod Segment
pub mod Header
pub mod Receive
pub mod Handler
pub mod Send
pub mod Cleaner
pub mod Client
pub mod Stream
pub mod Resend
pub mod Quiet
pub mod Options
pub mod Wire
pub mod States
pub mod Deliver
pub mod Table
pub mod Cleaning
pub mod Faults
pub mod Handshake
