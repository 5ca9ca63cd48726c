-- ===== src/Provider.antt =====
-- provider.h and provider.cpp: what every provider of positions, headings and velocities has.
pub mod Controller
pub mod Consistency
pub mod Sharing
pub mod Relate
pub mod Chained
pub mod Simulate
