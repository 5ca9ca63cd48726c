-- ===== src/Service.antt =====
-- The service: who may create sessions and the store of them (service/skeleton.cpp and the permission
-- managers), the properties on the bus that mirror the engine's configuration (service/implementation.cpp),
-- and the harvester with its reporters.
pub mod Permissions
pub mod Sessions
pub mod Refinement
pub mod Trusted
pub mod Harvester
pub mod Ichnaea
pub mod Submitted
pub mod Mirror
pub mod Slots
pub mod Settled
pub mod Mirrored
pub mod Started
