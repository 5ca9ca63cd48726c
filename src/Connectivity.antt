-- ===== src/Connectivity.antt =====
-- ofono_nm_connectivity_manager.cpp: the caches of modems, radio cells, network devices and wireless
-- networks, what is announced of them, and the characteristics of the active connection. Object paths are
-- numbers.
pub mod Cells
pub mod Kept
pub mod Enumerated
pub mod Networks
pub mod Heard
pub mod Characteristics
pub mod Wireless
pub mod Properties
