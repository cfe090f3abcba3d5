-- ===== src/ReadersWriters/Hoare.antt =====
-- os_lab_4/tmp.c: the monitor of Hoare, with an edit flag beside the counter of active writers.
use os_5sem.Prelude.{
  ℕ, ◌+◌, ◌%◌, ◌≡◌, ◌≢◌, ◌<◌, ◌⊎◌, false, refl, Bool, List, [], ◌∷◌, Option, none, some, ◌==◌,
  if◌then◌else◌, length, arith,
}
use os_5sem.Prelude.Int.{pos, negsuc}
use os_5sem.Posix.Semop.{Sems, Sembuf, op, semop, setval, done}
use os_5sem.ReadersWriters.Lock.{Lock}
use os_5sem.ReadersWriters.Program.{
  Pc, r_loop, r_wait, r_in, r_out, w_loop, w_wait, w_in, w_wrap, w_load, w_store, w_out, quit,
  failed, failed_reading, failed_writing, Program, Implements,
}
use os_5sem.ReadersWriters.Process.{Mem, call, is_reader, Code, Conforms, System, Reach}
use os_5sem.ReadersWriters.Behaviour.{behaviour, behaviour-Conforms}
use os_5sem.ReadersWriters.Invariant.{IsAlphabet, reads, writes}
use os_5sem.ReadersWriters.Safety

abbrev flag_edit : ℕ
flag_edit = 0

abbrev active_writer : ℕ
active_writer = 1

abbrev active_readers : ℕ
active_readers = 2

abbrev write_queue : ℕ
write_queue = 3

abbrev read_queue : ℕ
read_queue = 4

abbrev pub start_read : List Sembuf
start_read =
    op read_queue (pos 1)
    ∷ op active_writer (pos 0)
    ∷ op write_queue (pos 0)
    ∷ op active_readers (pos 1)
    ∷ op read_queue (negsuc 0)
    ∷ []

abbrev pub stop_read : List Sembuf
stop_read = op active_readers (negsuc 0) ∷ []

abbrev pub start_write : List Sembuf
start_write =
    op write_queue (pos 1)
    ∷ op active_readers (pos 0)
    ∷ op flag_edit (negsuc 0)
    ∷ op active_writer (pos 0)
    ∷ op active_writer (pos 1)
    ∷ op write_queue (negsuc 0)
    ∷ []

abbrev pub stop_write : List Sembuf
stop_write = op active_writer (negsuc 0) ∷ op flag_edit (pos 1) ∷ []

-- The SETVAL calls of `main`.
abbrev pub set_up : Sems → Sems
set_up s = setval flag_edit 1 (
    setval read_queue 0 (setval write_queue 0 (setval active_readers 0 (setval active_writer 0 s))))

abbrev pub program : Program
program = record {
  start_read = start_read;
  stop_read = stop_read;
  start_write = start_write;
  stop_write = stop_write;
  nsems = 5;
  set_up = set_up;
  first_letter = b'a';
  wrapped = b'a';
  after_wrap = w_out;
}

-- The values of the set while the lock is held so.
abbrev pub view : Lock → Sems
view l = (if l.writing then 0 else 1) ∷ (if l.writing then 1 else 0) ∷ l.readers ∷ 0 ∷ 0 ∷ []

set_up_view : (s : Sems) → length s ≡ 5 → set_up s ≡ 1 ∷ 0 ∷ 0 ∷ 0 ∷ 0 ∷ []
set_up_view (a ∷ b ∷ c ∷ d ∷ e ∷ []) h = refl
set_up_view _ h = absurd (omega arith)

-- The semaphore set of the program is a lock that many readers or one writer may hold: each of the
-- four calls goes through exactly when the lock's operation does, with that operation's effect.
pub hoare-Implements : Implements program view
unfolding semop
hoare-Implements = record {
  sets_up = set_up_view;
  reads = λ l. ground arith;
  stops_reading = λ l. ground arith;
  writes = λ l. ground arith;
  stops_writing = λ l. ground arith;
}

abbrev pub reader : Bool → Bool → Mem → Pc → Option (Mem × Pc)
reader flag interrupted m r_loop = some (m, if flag then r_wait else quit)
reader flag interrupted m r_wait = call interrupted start_read m r_in failed
reader flag interrupted m r_in = some (m, r_out m.buf)
reader flag interrupted m (r_out c) = call interrupted stop_read m r_loop failed_reading
reader _ _ _ _ = none

abbrev pub writer : Bool → Bool → Mem → Pc → Option (Mem × Pc)
writer flag interrupted m w_loop = some (m, if flag then w_wait else quit)
writer flag interrupted m w_wait = call interrupted start_write m w_in failed
writer flag interrupted m w_in = some (m, if m.buf == b'z' then w_wrap else w_load)
writer flag interrupted m w_wrap = some (record m { buf = b'a' }, w_out)
writer flag interrupted m w_load = some (m, w_store m.buf)
writer flag interrupted m (w_store c) = some (record m { buf = (c + 1) % 256 }, w_out)
writer flag interrupted m w_out = call interrupted stop_write m w_loop failed_writing
writer _ _ _ _ = none

abbrev pub code : Code
code flag interrupted m c =
    if is_reader c then reader flag interrupted m c else writer flag interrupted m c

code-eq : (flag i : Bool) (m : Mem) (c : Pc) → code flag i m c ≡ behaviour program flag i m c
code-eq flag i m r_loop = refl
code-eq flag i m _ = refl

-- The code of the program makes no other moves than a readers-writers program may make, and waits
-- only where such a program waits.
pub hoare-Conforms : Conforms program code
hoare-Conforms = behaviour-Conforms program code code-eq

pub hoare-IsAlphabet : IsAlphabet program
hoare-IsAlphabet = record {
  starts = omega arith;
  wraps_low = omega arith;
  wraps_high = omega arith;
  goes_on = refl;
  stays_out = refl;
  fresh = tt;
}

-- In every state that the processes can reach from any values of the set, whatever the
-- interleaving, the signals and the failed calls, a process in a writer's section excludes every
-- other process from both sections.
pub hoare_mutual_exclusion :
    {writers n : ℕ} {s : System}
    → Reach program code writers n s
    → (i j : ℕ) → i < n
    → j < n
    → writes (s.pc i) ≡ 1
    → writes (s.pc j) + reads (s.pc j) ≡ 1
    → i ≡ j
hoare_mutual_exclusion = Safety.mutual_exclusion hoare-Implements hoare-IsAlphabet hoare-Conforms

-- In a reachable state in which no process can move, even uninterrupted, and none has failed at
-- leaving its section, every process has ended.
pub hoare_no_deadlock :
    {writers n : ℕ} {s : System}
    → Reach program code writers n s
    → ((i : ℕ) → i < n → code (s.flag i) false s.mem (s.pc i) ≡ none)
    → ((i : ℕ) → i < n → (s.pc i ≢ failed_reading) × (s.pc i ≢ failed_writing))
    → (i : ℕ) → i < n
    → (s.pc i ≡ quit) ⊎ (s.pc i ≡ failed)
hoare_no_deadlock = Safety.no_deadlock hoare-Implements hoare-IsAlphabet hoare-Conforms

-- In every reachable state in which no process stands in a writer's section, semop(start_read) goes
-- through at once, whether or not writers wait in semop(start_write).
pub hoare_reader_admitted :
    {writers n : ℕ} {s : System}
    → Reach program code writers n s
    → ((j : ℕ) → j < n → writes (s.pc j) ≡ 0)
    → (t : Sems) × (semop start_read s.mem.sems ≡ done t)
hoare_reader_admitted = Safety.reader_admitted hoare-Implements hoare-IsAlphabet hoare-Conforms
