-- ===== src/Worker.antt =====
-- src/icefarm/worker: the process beside the devices.
pub mod Device
pub mod DeviceFiles
pub mod Manager
pub mod Requests
pub mod Results
pub mod Ports
pub mod Reservables
pub mod Upload
pub mod Reader
pub mod Shutdown
pub mod Sender
pub mod Records
