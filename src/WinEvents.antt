-- ===== src/WinEvents.antt =====
-- lab_win/winwr.c: readers and writers in threads of one process, over events and counters of
-- Windows. A step is one access to what the threads share, or one call.
pub mod Counters
pub mod Race
pub mod Arrays
mod Examples
use os_5sem.Prelude.{
  ℕ, ◌+◌, ◌-◌, ◌%◌, ◌<◌, ◌≡◌, Bool, true, false, Option, none, some, ◌==◌, ltb, if◌then◌else◌,
}
use os_5sem.Prelude.Family.{update}

abbrev pub readers_num : ℕ
readers_num = 5

abbrev pub writers_num : ℕ
writers_num = 6

abbrev pub threads : ℕ
threads = readers_num + writers_num

-- `can_read` is reset by the wait that it ends, `can_write` by ResetEvent only.
pub record Shared : Type 0 where
  pub can_read : Bool
  pub can_write : Bool
  pub mutex : Option ℕ
  pub writers_queue : ℕ
  pub readers_queue : ℕ
  pub active_readers : ℕ
  pub active_writer : ℕ
  pub buf : ℕ

-- What `main` leaves before it creates the threads.
abbrev pub at_start : Shared
at_start = record {
  can_read = false;
  can_write = false;
  mutex = none;
  writers_queue = 0;
  readers_queue = 0;
  active_readers = 0;
  active_writer = 0;
  buf = b'a';
}

pub data Pc : Type 0 where
  r_loop : Pc  -- test of f_sigint
  r_enter : Pc  -- start_read: InterlockedIncrement(&readers_queue)
  r_writer : Pc  -- test of active_writer
  r_queue : Pc  -- test of writers_queue
  r_wait : Pc  -- WaitForSingleObject(can_read)
  r_lock : Pc  -- WaitForSingleObject(mutex)
  r_unqueue : Pc  -- InterlockedDecrement(&readers_queue)
  r_count : Pc  -- InterlockedIncrement(&active_readers)
  r_set : Pc  -- SetEvent(can_read)
  r_unlock : Pc  -- ReleaseMutex(mutex)
  r_in : Pc  -- the letter is read
  r_leave : Pc  -- stop_read: InterlockedDecrement(&active_readers)
  r_check : Pc  -- test of active_readers
  r_signal : Pc  -- SetEvent(can_write)
  w_loop : Pc
  w_enter : Pc  -- start_write: InterlockedIncrement(&writers_queue)
  w_readers : Pc  -- test of active_readers
  w_writer : Pc  -- test of active_writer
  w_wait : Pc  -- WaitForSingleObject(can_write)
  w_unqueue : Pc  -- InterlockedDecrement(&writers_queue)
  w_count : Pc  -- InterlockedIncrement(&active_writer)
  w_in : Pc  -- test of the letter
  w_wrap : Pc  -- the store of 'a'
  w_load : Pc  -- the load of buf++
  w_store : ℕ → Pc  -- its store
  w_leave : Pc  -- stop_write: InterlockedDecrement(&active_writer)
  w_reset : Pc  -- ResetEvent(can_write)
  w_check : Pc  -- test of readers_queue
  w_readers_go : Pc  -- SetEvent(can_read)
  w_writers_go : Pc  -- SetEvent(can_write)
  returned : Pc

abbrev pub Code : Type 0
Code = Bool → ℕ → Shared → Pc → Option (Shared × Pc)

-- `none`: the thread waits. `flag` is f_sigint.
abbrev pub start_read : ℕ → Shared → Pc → Option (Shared × Pc)
start_read id s r_enter = some (record s { readers_queue = s.readers_queue + 1 }, r_writer)
start_read id s r_writer = some (s, if s.active_writer == 0 then r_queue else r_wait)
start_read id s r_queue = some (s, if s.writers_queue == 0 then r_lock else r_wait)
start_read id s r_wait = if s.can_read then some (record s { can_read = false }, r_lock) else none
start_read id s r_lock = elim s.mutex [
  | none ↦ some (record s { mutex = some id }, r_unqueue)
  | some holder ↦ none
]
start_read id s r_unqueue = some (record s { readers_queue = s.readers_queue - 1 }, r_count)
start_read id s r_count = some (record s { active_readers = s.active_readers + 1 }, r_set)
start_read id s r_set = some (record s { can_read = true }, r_unlock)
start_read id s r_unlock = some (record s { mutex = none }, r_in)
start_read id s _ = none

abbrev pub stop_read : Shared → Pc → Option (Shared × Pc)
stop_read s r_leave = some (record s { active_readers = s.active_readers - 1 }, r_check)
stop_read s r_check = some (s, if s.active_readers == 0 then r_signal else r_loop)
stop_read s r_signal = some (record s { can_write = true }, r_loop)
stop_read s _ = none

abbrev pub start_write : Shared → Pc → Option (Shared × Pc)
start_write s w_enter = some (record s { writers_queue = s.writers_queue + 1 }, w_readers)
start_write s w_readers = some (s, if s.active_readers == 0 then w_writer else w_wait)
start_write s w_writer = some (s, if s.active_writer == 0 then w_unqueue else w_wait)
start_write s w_wait = if s.can_write then some (s, w_unqueue) else none
start_write s w_unqueue = some (record s { writers_queue = s.writers_queue - 1 }, w_count)
start_write s w_count = some (record s { active_writer = s.active_writer + 1 }, w_in)
start_write s _ = none

abbrev pub stop_write : Shared → Pc → Option (Shared × Pc)
stop_write s w_leave = some (record s { active_writer = s.active_writer - 1 }, w_reset)
stop_write s w_reset = some (record s { can_write = false }, w_check)
stop_write s w_check = some (s, if ltb 0 s.readers_queue then w_readers_go else w_writers_go)
stop_write s w_readers_go = some (record s { can_read = true }, w_loop)
stop_write s w_writers_go = some (record s { can_write = true }, w_loop)
stop_write s _ = none

abbrev pub reader : Code
reader flag id s r_loop = some (s, if flag then r_enter else returned)
reader flag id s r_in = some (s, r_leave)
reader flag id s r_leave = stop_read s r_leave
reader flag id s r_check = stop_read s r_check
reader flag id s r_signal = stop_read s r_signal
reader flag id s c = start_read id s c

abbrev pub writer : Code
writer flag id s w_loop = some (s, if flag then w_enter else returned)
writer flag id s w_in = some (s, if s.buf == b'z' then w_wrap else w_load)
writer flag id s w_wrap = some (record s { buf = b'a' }, w_leave)
writer flag id s w_load = some (s, w_store s.buf)
writer flag id s (w_store c) = some (record s { buf = (c + 1) % 256 }, w_leave)
writer flag id s w_enter = start_write s w_enter
writer flag id s w_readers = start_write s w_readers
writer flag id s w_writer = start_write s w_writer
writer flag id s w_wait = start_write s w_wait
writer flag id s w_unqueue = start_write s w_unqueue
writer flag id s w_count = start_write s w_count
writer flag id s c = stop_write s c

-- The function that a thread runs, by where it stands: readers and writers share no place but the
-- last one.
abbrev pub is_reader : Pc → Bool
is_reader r_loop = true
is_reader r_enter = true
is_reader r_writer = true
is_reader r_queue = true
is_reader r_wait = true
is_reader r_lock = true
is_reader r_unqueue = true
is_reader r_count = true
is_reader r_set = true
is_reader r_unlock = true
is_reader r_in = true
is_reader r_leave = true
is_reader r_check = true
is_reader r_signal = true
is_reader _ = false

unfoldable pub code : Code
code flag id s c = if is_reader c then reader flag id s c else writer flag id s c

pub record System : Type 0 where
  pub shared : Shared
  pub pc : ℕ → Pc
  pub flag : Bool

-- `main` creates the readers and then the writers.
abbrev pub init : System
init = record {
  shared = at_start;
  pc = λ i. if ltb i readers_num then r_loop else w_loop;
  flag = true;
}

pub data Reach : System → Type 0 where
  start : Reach init
  later :
      {s : System} {u : Shared × Pc} (i : ℕ)
      → Reach s
      → i < threads
      → code s.flag i s.shared (s.pc i) ≡ some u
      → Reach (record s { shared = u.0; pc = update s.pc i u.1 })
  -- CtrlCHandler
  ctrl_c : {s : System} → Reach s → Reach (record s { flag = false })
