-- ===== src/Control.antt =====
-- src/icefarm/control: the control server's commands on devices and reservations. The answers of the workers are
-- arguments; so are those of the database, but in Queries, Served and Webapp, which stand on Schema.
pub mod Commands
pub mod Notifications
pub mod Rows
pub mod Rounds
pub mod Cells
pub mod Queries
pub mod Served
pub mod Webapp
pub mod Endpoints
