-- ===== src/ReadersWriters.antt =====
-- The readers and writers of os_lab_4: four programs that guard one shared letter by a set of
-- semaphores.
pub mod Lock
pub mod Program
pub mod Process
pub mod Behaviour
pub mod Invariant
pub mod Held
pub mod Safety
pub mod Wr
pub mod WrOld
pub mod Hoare
pub mod TmpWr
pub mod Main
mod Schedule
pub mod Counter
mod Examples
