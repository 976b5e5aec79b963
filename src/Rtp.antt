-- ===== src/Rtp.antt =====
-- The media side: RTP packets, the loop that cuts a frame into packets, and the transport.
pub mod Packet
pub mod Fragments
pub mod Transport
pub mod Track
mod Tests
