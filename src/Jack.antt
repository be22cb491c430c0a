-- ===== src/Jack.antt =====
-- The backend for JACK, rtmidi17/detail/jack.hpp.
pub mod Input
pub mod Ring
pub mod Output
pub mod Ports
pub mod Loopback
