-- ===== src/Daemon.antt =====
-- The daemon of os_lab_3.
pub mod Descriptors
pub mod Instance
pub mod Single
pub mod Closing
pub mod Terminal
pub mod Early
mod Examples
