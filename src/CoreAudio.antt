-- ===== src/CoreAudio.antt =====
-- The backend of rtmidi17/detail/coreaudio.hpp.
pub mod Input
pub mod Output
pub mod Ports
