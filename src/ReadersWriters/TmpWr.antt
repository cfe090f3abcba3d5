-- ===== src/ReadersWriters/TmpWr.antt =====
-- os_lab_4/tmp_wr.c: the free writer's place is the semaphore, and its complement is waited for by
-- the readers. The letter starts at 'a' - 1, and a 'z' is wrapped to that before the increment.
use os_5sem.Prelude.{
  ℕ, ◌+◌, ◌-◌, ◌%◌, ◌≡◌, ◌≢◌, ◌<◌, ◌≤◌, ◌⊎◌, false, refl, Bool, List, [], ◌∷◌, Option, none, some,
  ◌==◌, if◌then◌else◌, length, arith,
}
use os_5sem.Prelude.Int.{pos, negsuc}
use os_5sem.Posix.Semop.{Sems, Sembuf, op, semop, setval}
use os_5sem.ReadersWriters.Lock.{Lock}
use os_5sem.ReadersWriters.Program.{
  Pc, r_loop, r_wait, r_in, r_out, w_loop, w_wait, w_in, w_wrap, w_load, w_store, w_out, quit,
  failed, failed_reading, failed_writing, Program, Implements,
}
use os_5sem.ReadersWriters.Process.{Mem, call, is_reader, Code, Conforms, System, Reach}
use os_5sem.ReadersWriters.Behaviour.{behaviour, behaviour-Conforms}
use os_5sem.ReadersWriters.Invariant.{IsAlphabet, reads, writes}
use os_5sem.ReadersWriters.Safety

abbrev c_waiting_r : ℕ
c_waiting_r = 0

abbrev c_active_r : ℕ
c_active_r = 1

abbrev c_waiting_w : ℕ
c_waiting_w = 2

abbrev b_active_w : ℕ
b_active_w = 3

abbrev b_sem : ℕ
b_sem = 4

abbrev pub sem_start_read : List Sembuf
sem_start_read =
    op c_waiting_r (pos 1)
    ∷ op b_sem (pos 0)
    ∷ op c_waiting_w (pos 0)
    ∷ op c_active_r (pos 1)
    ∷ op c_waiting_r (negsuc 0)
    ∷ []

abbrev pub sem_stop_read : List Sembuf
sem_stop_read = op c_active_r (negsuc 0) ∷ []

abbrev pub sem_start_write : List Sembuf
sem_start_write =
    op c_waiting_w (pos 1)
    ∷ op c_active_r (pos 0)
    ∷ op b_sem (pos 1)
    ∷ op b_active_w (negsuc 0)
    ∷ op c_waiting_w (negsuc 0)
    ∷ []

abbrev pub sem_stop_write : List Sembuf
sem_stop_write = op b_active_w (pos 1) ∷ op b_sem (negsuc 0) ∷ []

-- The SETVAL calls of `main`.
abbrev pub set_up : Sems → Sems
set_up s =
    setval c_waiting_w 0
      (setval c_active_r 0 (setval c_waiting_r 0 (setval b_sem 0 (setval b_active_w 1 s))))

abbrev pub program : Program
program = record {
  start_read = sem_start_read;
  stop_read = sem_stop_read;
  start_write = sem_start_write;
  stop_write = sem_stop_write;
  nsems = 5;
  set_up = set_up;
  first_letter = (b'a' - 1);
  wrapped = (b'a' - 1);
  after_wrap = w_load;
}

-- The values of the set while the lock is held so.
abbrev pub view : Lock → Sems
view l = 0 ∷ l.readers ∷ 0 ∷ (if l.writing then 0 else 1) ∷ (if l.writing then 1 else 0) ∷ []

set_up_view : (s : Sems) → length s ≡ 5 → set_up s ≡ 0 ∷ 0 ∷ 0 ∷ 1 ∷ 0 ∷ []
set_up_view (a ∷ b ∷ c ∷ d ∷ e ∷ []) h = refl
set_up_view _ h = absurd (omega arith)

-- The semaphore set of the program is a lock that many readers or one writer may hold: each of the
-- four calls goes through exactly when the lock's operation does, with that operation's effect.
pub tmp_wr-Implements : Implements program view
unfolding semop
tmp_wr-Implements = record {
  sets_up = set_up_view;
  reads = λ l. ground arith;
  stops_reading = λ l. ground arith;
  writes = λ l. ground arith;
  stops_writing = λ l. ground arith;
}

abbrev pub reader : Bool → Bool → Mem → Pc → Option (Mem × Pc)
reader flag interrupted m r_loop = some (m, if flag then r_wait else quit)
reader flag interrupted m r_wait = call interrupted sem_start_read m r_in failed
reader flag interrupted m r_in = some (m, r_out m.buf)
reader flag interrupted m (r_out c) = call interrupted sem_stop_read m r_loop failed_reading
reader _ _ _ _ = none

abbrev pub writer : Bool → Bool → Mem → Pc → Option (Mem × Pc)
writer flag interrupted m w_loop = some (m, if flag then w_wait else quit)
writer flag interrupted m w_wait = call interrupted sem_start_write m w_in failed
writer flag interrupted m w_in = some (m, if m.buf == b'z' then w_wrap else w_load)
writer flag interrupted m w_wrap = some (record m { buf = (b'a' - 1) }, w_load)
writer flag interrupted m w_load = some (m, w_store m.buf)
writer flag interrupted m (w_store c) = some (record m { buf = (c + 1) % 256 }, w_out)
writer flag interrupted m w_out = call interrupted sem_stop_write m w_loop failed_writing
writer _ _ _ _ = none

abbrev pub code : Code
code flag interrupted m c =
    if is_reader c then reader flag interrupted m c else writer flag interrupted m c

code-eq : (flag i : Bool) (m : Mem) (c : Pc) → code flag i m c ≡ behaviour program flag i m c
code-eq flag i m r_loop = refl
code-eq flag i m _ = refl

-- The code of the program makes no other moves than a readers-writers program may make, and waits
-- only where such a program waits.
pub tmp_wr-Conforms : Conforms program code
tmp_wr-Conforms = behaviour-Conforms program code code-eq

pub tmp_wr-IsAlphabet : IsAlphabet program
tmp_wr-IsAlphabet = record {
  starts = omega arith;
  wraps_low = omega arith;
  wraps_high = omega arith;
  goes_on = refl;
  stays_out = refl;
  fresh = omega arith;
}

-- In every state that the processes can reach from any values of the set, whatever the
-- interleaving, the signals and the failed calls, a process in a writer's section excludes every
-- other process from both sections.
pub tmp_wr_mutual_exclusion :
    {writers n : ℕ} {s : System}
    → Reach program code writers n s
    → (i j : ℕ) → i < n
    → j < n
    → writes (s.pc i) ≡ 1
    → writes (s.pc j) + reads (s.pc j) ≡ 1
    → i ≡ j
tmp_wr_mutual_exclusion =
    Safety.mutual_exclusion tmp_wr-Implements tmp_wr-IsAlphabet tmp_wr-Conforms

-- In every reachable state the shared letter lies between 'a' - 1, its value before the first write, and 'z'.
pub tmp_wr_letter_in_range :
    {writers n : ℕ} {s : System}
    → Reach program code writers n s
    → (b'a' - 1 ≤ s.mem.buf) × (s.mem.buf ≤ b'z')
tmp_wr_letter_in_range = Safety.letter_in_range tmp_wr-Implements tmp_wr-IsAlphabet tmp_wr-Conforms

-- In a reachable state in which no process can move, even uninterrupted, and none has failed at
-- leaving its section, every process has ended.
pub tmp_wr_no_deadlock :
    {writers n : ℕ} {s : System}
    → Reach program code writers n s
    → ((i : ℕ) → i < n → code (s.flag i) false s.mem (s.pc i) ≡ none)
    → ((i : ℕ) → i < n → (s.pc i ≢ failed_reading) × (s.pc i ≢ failed_writing))
    → (i : ℕ) → i < n
    → (s.pc i ≡ quit) ⊎ (s.pc i ≡ failed)
tmp_wr_no_deadlock = Safety.no_deadlock tmp_wr-Implements tmp_wr-IsAlphabet tmp_wr-Conforms
