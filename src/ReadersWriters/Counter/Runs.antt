-- ===== src/ReadersWriters/Counter/Runs.antt =====
-- os_lab_4/tmp_pc.c: the interleavings of any number of its readers and writers.
use os_5sem.Prelude.{ℕ, ◌+◌, ◌≡◌, Bool, true, false, Option, some, if◌then◌else◌}
use os_5sem.Prelude.Family.{update}
use os_5sem.ReadersWriters.Lock.{unlocked}
use os_5sem.ReadersWriters.Program.{
  Pc, r_loop, r_wait, r_in, r_out, w_loop, w_load, w_store, w_out, failed_writing,
}
use os_5sem.ReadersWriters.Process.{Mem}
use os_5sem.ReadersWriters.Counter.{view, count_reader, count_writer}

-- The process by its place: a reader's or a writer's.
abbrev pub code : Bool → Mem → Pc → Option (Mem × Pc)
code interrupted m r_loop = count_reader interrupted m r_loop
code interrupted m r_wait = count_reader interrupted m r_wait
code interrupted m r_in = count_reader interrupted m r_in
code interrupted m (r_out c) = count_reader interrupted m (r_out c)
code interrupted m c = count_writer interrupted m c

-- Whether a step from here stores an increment.
abbrev pub stores : Pc → ℕ
stores (w_store c) = 1
stores _ = 0

-- Between the calls of semop of a writer; a writer whose second call fails leaves it done.
abbrev pub in_write : Pc → Bool
in_write w_load = true
in_write (w_store c) = true
in_write w_out = true
in_write failed_writing = true
in_write _ = false

-- `increments` are those stored so far.
pub record System : Type 0 where
  pub mem : Mem
  pub pc : ℕ → Pc
  pub increments : ℕ

abbrev pub start_of : Bool → Pc
start_of writer = if writer then w_loop else r_loop

-- The processes are forked once `main` has set the semaphores and the number; `writer i` says what
-- process `i` is.
pub data Reach (writer : ℕ → Bool) : System → Type 0 where
  start : Reach writer (record {
    mem = record { sems = view unlocked; buf = 0 };
    pc = λ i. start_of (writer i);
    increments = 0;
  })
  later :
      {s : System} {u : Mem × Pc} (i : ℕ) (interrupted : Bool)
      → Reach writer s
      → code interrupted s.mem (s.pc i) ≡ some u
      → Reach writer (record {
        mem = u.0;
        pc = update s.pc i u.1;
        increments = s.increments + stores (s.pc i);
      })
