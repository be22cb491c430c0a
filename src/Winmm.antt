-- ===== src/Winmm.antt =====
-- The backend for Windows multimedia, rtmidi17/detail/winmm.hpp.
pub mod Input
pub mod Output
pub mod Loopback
pub mod Observer
pub mod PortName
pub mod Ports
pub mod OutPorts
