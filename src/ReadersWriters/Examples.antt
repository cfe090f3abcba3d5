-- ===== src/ReadersWriters/Examples.antt =====
-- The programs of readers and writers run: the theorems about them at reachable states.
use os_5sem.Prelude.{
  ℕ, zero, suc, ◌<◌, ◌≤◌, ◌≡◌, ◌≢◌, ◌⊎◌, refl, false, none, List, [], ◌∷◌, replicate, arith,
}
use os_5sem.Posix.Semop.{Sems, semop, done}
use os_5sem.ReadersWriters.Program.{quit, failed, failed_reading, failed_writing}
use os_5sem.ReadersWriters.Schedule.{Trace, Turn, moves, gets_signal, follow}
use os_5sem.Posix.Script.{Report, exited, stopped, continued, count_ends}
use os_5sem.ReadersWriters.Invariant.{writes}
use os_5sem.ReadersWriters.Wr
use os_5sem.ReadersWriters.Hoare

-- Writer 0 has entered its section, while a reader and the next writer wait.
abbrev enter_writer : List Turn
enter_writer = moves 0 ∷ moves 0 ∷ moves 3 ∷ moves 1 ∷ moves 1 ∷ []

-- A reader has entered, and a writer waits.
abbrev enter_reader : List Turn
enter_reader = moves 1 ∷ moves 1 ∷ moves 0 ∷ moves 0 ∷ moves 2 ∷ []

-- Two processes are told to stop, and leave their loops.
abbrev stop_all : List Turn
stop_all = gets_signal 0 ∷ gets_signal 1 ∷ moves 0 ∷ moves 1 ∷ []

abbrev wr_writing : Trace Wr.program Wr.code 3 9
wr_writing = follow Wr.program Wr.code 3 9 (replicate 5 7) refl enter_writer

abbrev wr_stopped : Trace Wr.program Wr.code 1 2
wr_stopped = follow Wr.program Wr.code 1 2 (replicate 5 7) refl stop_all

wr_mutual_exclusion_example : ◌≡◌ {A = ℕ} 0 0
unfolding follow
wr_mutual_exclusion_example =
    Wr.wr_mutual_exclusion wr_writing.reached 0 0 (omega arith) (omega arith) refl refl

wr_still :
    (i : ℕ)
    → i < 2
    → Wr.code (wr_stopped.now.flag i) false wr_stopped.now.mem (wr_stopped.now.pc i) ≡ none
unfolding follow
wr_still zero lt = refl
wr_still (suc zero) lt = refl
wr_still (suc (suc i)) lt = absurd (omega arith)

wr_alive :
    (i : ℕ)
    → i < 2
    → (wr_stopped.now.pc i ≢ failed_reading) × (wr_stopped.now.pc i ≢ failed_writing)
unfolding follow
wr_alive zero lt = (λ e. cc, λ e. cc)
wr_alive (suc zero) lt = (λ e. cc, λ e. cc)
wr_alive (suc (suc i)) lt = absurd (omega arith)

wr_no_deadlock_example : (wr_stopped.now.pc 1 ≡ quit) ⊎ (wr_stopped.now.pc 1 ≡ failed)
wr_no_deadlock_example = Wr.wr_no_deadlock wr_stopped.reached wr_still wr_alive 1 (omega arith)

wr_letter_in_range_example : (b'a' ≤ wr_writing.now.mem.buf) × (wr_writing.now.mem.buf ≤ b'z')
wr_letter_in_range_example = Wr.wr_letter_in_range wr_writing.reached

abbrev wr_reading : Trace Wr.program Wr.code 1 3
wr_reading = follow Wr.program Wr.code 1 3 (replicate 5 7) refl enter_reader

wr_none_writes : (j : ℕ) → j < 3 → writes (wr_reading.now.pc j) ≡ 0
unfolding follow
wr_none_writes zero lt = refl
wr_none_writes (suc zero) lt = refl
wr_none_writes (suc (suc zero)) lt = refl
wr_none_writes (suc (suc (suc j))) lt = absurd (omega arith)

wr_reader_admitted_example : (t : Sems) × (semop Wr.start_read wr_reading.now.mem.sems ≡ done t)
wr_reader_admitted_example = Wr.wr_reader_admitted wr_reading.reached wr_none_writes

abbrev hoare_writing : Trace Hoare.program Hoare.code 3 9
hoare_writing = follow Hoare.program Hoare.code 3 9 (replicate 5 7) refl enter_writer

abbrev hoare_reading : Trace Hoare.program Hoare.code 1 3
hoare_reading = follow Hoare.program Hoare.code 1 3 (replicate 5 7) refl enter_reader

hoare_none_writes : (j : ℕ) → j < 3 → writes (hoare_reading.now.pc j) ≡ 0
unfolding follow
hoare_none_writes zero lt = refl
hoare_none_writes (suc zero) lt = refl
hoare_none_writes (suc (suc zero)) lt = refl
hoare_none_writes (suc (suc (suc j))) lt = absurd (omega arith)

hoare_reader_admitted_example :
    (t : Sems) × (semop Hoare.start_read hoare_reading.now.mem.sems ≡ done t)
hoare_reader_admitted_example = Hoare.hoare_reader_admitted hoare_reading.reached hoare_none_writes

-- One child is stopped and continued: two of nine reports.
abbrev stopped_once : List Report
stopped_once = stopped ∷ continued ∷ replicate 7 exited

-- The set is removed while two children live.
stopped_once_ends : count_ends stopped_once ≡ 7
unfolding count_ends
stopped_once_ends = refl
