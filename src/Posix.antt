-- ===== src/Posix.antt =====
-- The system interface that the programs call, as POSIX documents it; none of it is in the
-- repository.
pub mod Semop
pub mod Script
