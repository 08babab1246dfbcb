-- ===== src/Client.antt =====
-- src/icefarm/client: what runs at the user's side.
pub mod Evaluation
pub mod Bundle
pub mod Factory
pub mod Connections
pub mod Handlers
pub mod Waiting
pub mod Events
pub mod Drivers
pub mod Reserving
