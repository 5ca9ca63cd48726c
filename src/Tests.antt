-- ===== src/Tests.antt =====
-- The theorems at concrete inputs.
mod Samples
mod Devices
mod Cells
mod Engines
mod Updates
mod Wire
mod Messages
mod Networks
mod Services
mod Clocks
mod Receivers
mod Remotes
mod Options
