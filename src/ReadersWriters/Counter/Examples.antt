-- ===== src/ReadersWriters/Counter/Examples.antt =====
-- A writer of tmp_pc.c has stored an increment.
use os_5sem.Prelude.{ℕ, ◌≡◌, refl, Bool, true, false, ◌==◌, ℕ_discrete}
use os_5sem.Posix.Semop.{semop}
use os_5sem.ReadersWriters.Counter.Runs.{in_write, System, Reach, start, later}
use os_5sem.ReadersWriters.Counter.Increments.{counter_counts}

-- Process 0 is the writer.
abbrev first_writes : ℕ → Bool
first_writes i = i == 0

one_stored : (s : System) × Reach first_writes s × (s.increments ≡ 1)
unfolding semop ℕ_discrete
one_stored = (
  _,
  later 0 false (later 0 false (later 0 false (later 0 false start refl) refl) refl) refl,
  refl,
)

counter_counts_example :
    (one_stored.0.mem.buf ≡ one_stored.0.increments)
    × ((i j : ℕ)
        → in_write (one_stored.0.pc i) ≡ true
        → in_write (one_stored.0.pc j) ≡ true
        → i ≡ j)
counter_counts_example = counter_counts one_stored.1
