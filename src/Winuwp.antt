-- ===== src/Winuwp.antt =====
-- The backend for the Universal Windows Platform, rtmidi17/detail/winuwp.hpp.
pub mod Observer
pub mod Ports
