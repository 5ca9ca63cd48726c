-- ===== src/Codec.antt =====
-- codec.h and space_vehicle.h: how positions, criteria, updates, space vehicles and states are written into
-- messages of the bus and read from them.
pub mod Message
pub mod Build
pub mod Laws
pub mod Values
pub mod Vehicles
pub mod RoundTrip
pub mod Visible
