-- ===== src/Utils.antt =====
-- src/icefarm/utils: the data structures and the helpers that every part shares.
pub mod Config
pub mod Loops
pub mod RemoteLogger
pub mod MappedQueues
pub mod Queue
pub mod Session
pub mod Web
pub mod Database
