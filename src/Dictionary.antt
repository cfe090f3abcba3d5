-- ===== src/Dictionary.antt =====
-- The dictionary of os_lab_rpc/threads_rpc: a server that keeps words in a fixed table.
pub mod Table
pub mod Counting
pub mod Contract
mod Examples
pub mod Service
pub mod Input
pub mod Request
pub mod Session
pub mod Lost
