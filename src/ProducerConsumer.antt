-- ===== src/ProducerConsumer.antt =====
-- The producers and consumers: programs that pass letters through a buffer under three semaphores.
pub mod Slots
pub mod Threads
pub mod Counts
pub mod Invariant
pub mod Safety
pub mod Statements
pub mod RpcRing
pub mod OldRing
pub mod PcLast
pub mod Lesson
pub mod PcProgram
pub mod Main
pub mod Straight
pub mod Alone
pub mod Clients
pub mod Pc2
pub mod RpcPc
mod Examples
mod ServiceExamples
