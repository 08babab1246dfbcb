-- ===== src/Examples.antt =====
-- Runs of the definitions on concrete inputs, and the theorems at inputs that meet their hypotheses.
mod Bundles
mod Factories
mod Queues
mod Uploads
mod Devices
mod Servers
mod Clients
mod Workers
mod Schemas
