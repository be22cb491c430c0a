-- ===== src/Alsa.antt =====
-- The backend for ALSA, rtmidi17/detail/alsa.hpp.
pub mod PortInfo
pub mod PortName
pub mod Time
pub mod Input
pub mod Ports
pub mod Observer
pub mod Coder
pub mod Output
pub mod OutPorts
