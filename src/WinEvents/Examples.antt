-- ===== src/WinEvents/Examples.antt =====
-- Instances for lab_win/winwr.c.
use os_5sem.Prelude.{◌≡◌, arith}
use os_5sem.Prelude.Family.{tally}
use os_5sem.WinEvents.{threads, w_in, System, Reach}
use os_5sem.WinEvents.Counters.{
  queued_reader, counted_reader, queued_writer, counted_writer, win_counters,
}
use os_5sem.WinEvents.Race.{two_writers}

two_writers_example : (s : System) × Reach s × (s.pc 5 ≡ w_in) × (s.pc 7 ≡ w_in)
two_writers_example =
    two_writers 5 7 (λ e. omega (arith, e)) (omega arith) (omega arith) (omega arith) (omega arith)

abbrev two_in : (s : System) × Reach s × (s.pc 5 ≡ w_in) × (s.pc 7 ≡ w_in)
two_in =
    two_writers 5 7 (λ e. omega (arith, e)) (omega arith) (omega arith) (omega arith) (omega arith)

-- With two writers in at once.
win_counters_example :
    (two_in.0.shared.readers_queue ≡ tally queued_reader two_in.0.pc threads)
    × (two_in.0.shared.active_readers ≡ tally counted_reader two_in.0.pc threads)
    × (two_in.0.shared.writers_queue ≡ tally queued_writer two_in.0.pc threads)
    × (two_in.0.shared.active_writer ≡ tally counted_writer two_in.0.pc threads)
win_counters_example = win_counters two_in.1
