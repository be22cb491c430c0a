-- ===== src/Tests.antt =====
-- Runs of the models on small inputs, and the theorems at inputs that meet their hypotheses.
mod Messages
mod Files
mod Queues
mod Ports
mod Inputs
mod Windows
mod Linux
mod Outputs
mod Uwp
mod Mac
mod AlsaOut
