-- ===== src/Processes.antt =====
-- The programs of os_lab_2 that fork, wait and run other programs, and the processes that the client
-- of os_lab_rpc/bakery makes.
use os_5sem.Prelude.{ℕ}
pub mod Count
pub mod ForkWait
pub mod Serial
pub mod Orphans
pub mod Reports

-- How a process ends: with an exit status, or by a signal.
pub data Status : Type 0 where
  exited killed : ℕ → Status
