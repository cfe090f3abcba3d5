-- ===== src/ReadersWriters/Process.antt =====
-- The processes of a readers-writers program, a shared access at a time, and their interleavings.
-- No source code by itself: each program's `reader` and `writer` are step functions over these
-- locations, in a module of their own, and are shown to make no other moves than `Move`.
use os_5sem.Prelude.{
  ℕ, ◌+◌, ◌%◌, ◌<◌, ◌≡◌, ◌≢◌, refl, Bool, true, false, Option, none, some, List, ltb, if◌then◌else◌,
  length,
}
use mathlib.Core.Path.{subst}
use mathlib.Core.Option.{some-injective}
use os_5sem.Prelude.Family.{update}
use os_5sem.Posix.Semop.{Sems, Sembuf, SemResult, done, sleeps, fails, semop}
use os_5sem.ReadersWriters.Program.{
  Pc, r_loop, r_wait, r_in, r_out, w_loop, w_wait, w_in, w_wrap, w_load, w_store, w_out, quit,
  failed, failed_reading, failed_writing, Program,
}

-- What the processes share: the semaphore set, and the letter in the shared memory.
pub record Mem : Type 0 where
  pub sems : Sems
  pub buf : ℕ

-- What a process of the program `p` may do; `flag` is its f_sigint. A `semop` may also return -1,
-- as it does when a signal ends its wait: the process then exits.
pub data Move (p : Program) (flag : Bool) (m : Mem) : Pc → Mem → Pc → Type 0 where
  read_again : flag ≡ true → Move p flag m r_loop m r_wait
  read_quit : flag ≡ false → Move p flag m r_loop m quit
  read_enter :
      {s : Sems}
      → semop p.start_read m.sems ≡ done s
      → Move p flag m r_wait (record m { sems = s }) r_in
  read_fail : Move p flag m r_wait m failed
  look : Move p flag m r_in m (r_out m.buf)
  read_leave :
      {s : Sems} {c : ℕ}
      → semop p.stop_read m.sems ≡ done s
      → Move p flag m (r_out c) (record m { sems = s }) r_loop
  leave_fail : {c : ℕ} → Move p flag m (r_out c) m failed_reading
  write_again : flag ≡ true → Move p flag m w_loop m w_wait
  write_quit : flag ≡ false → Move p flag m w_loop m quit
  write_enter :
      {s : Sems}
      → semop p.start_write m.sems ≡ done s
      → Move p flag m w_wait (record m { sems = s }) w_in
  write_fail : Move p flag m w_wait m failed
  at_z : m.buf ≡ 122 → Move p flag m w_in m w_wrap
  before_z : m.buf ≢ 122 → Move p flag m w_in m w_load
  wrap : Move p flag m w_wrap (record m { buf = p.wrapped }) p.after_wrap
  load : Move p flag m w_load m (w_store m.buf)
  store : {c : ℕ} → Move p flag m (w_store c) (record m { buf = (c + 1) % 256 }) w_out
  write_leave :
      {s : Sems}
      → semop p.stop_write m.sems ≡ done s
      → Move p flag m w_out (record m { sems = s }) w_loop
  done_fail : Move p flag m w_out m failed_writing

-- Where a process cannot move: it has ended, or its call sleeps.
abbrev pub Stuck : Program → Mem → Pc → Type 0
Stuck p m r_wait = semop p.start_read m.sems ≡ sleeps
Stuck p m (r_out c) = semop p.stop_read m.sems ≡ sleeps
Stuck p m w_wait = semop p.start_write m.sems ≡ sleeps
Stuck p m w_out = semop p.stop_write m.sems ≡ sleeps
Stuck p m quit = Unit
Stuck p m failed = Unit
Stuck p m failed_reading = Unit
Stuck p m failed_writing = Unit
Stuck p m _ = ⊥

-- A step function: by `f_sigint`, and by whether a signal ends the wait of a call that is made now.
-- `none`: the process cannot move.
abbrev pub Code : Type 0
Code = Bool → Bool → Mem → Pc → Option (Mem × Pc)

-- `if (semop(semid, ops, …) == -1) exit(EXIT_FAILURE)`, going on at `ok`.
abbrev pub call : Bool → List Sembuf → Mem → Pc → Pc → Option (Mem × Pc)
call interrupted ops m ok bad = if interrupted then some (m, bad) else elim (semop ops m.sems) [
  | done s ↦ some (record m { sems = s }, ok)
  | sleeps ↦ none
  | fails ↦ some (m, bad)
]

-- The locations of a reader.
abbrev pub is_reader : Pc → Bool
is_reader r_loop = true
is_reader r_wait = true
is_reader r_in = true
is_reader (r_out _) = true
is_reader _ = false

module _ {p : Program} {flag : Bool} {m : Mem} {c : Pc} where
  pub moved : (t u : Mem × Pc) → Move p flag m c t.0 t.1 → some t ≡ some u → Move p flag m c u.0 u.1
  moved t u h e = subst (λ (v : Mem × Pc). Move p flag m c v.0 v.1) (some-injective t u e) h

  pub moved_call :
      (interrupted : Bool) (ops : List Sembuf) (ok bad : Pc) (u : Mem × Pc)
      → ((s : Sems) → semop ops m.sems ≡ done s → Move p flag m c (record m { sems = s }) ok)
      → Move p flag m c m bad
      → call interrupted ops m ok bad ≡ some u
      → Move p flag m c u.0 u.1
  moved_call true ops ok bad u h k e = moved (m, bad) u k e
  moved_call false ops ok bad u h k e = go (semop ops m.sems) refl e
    where
      go :
          (r : SemResult)
          → semop ops m.sems ≡ r
          → elim r [
            | done s ↦ some (record m { sems = s }, ok)
            | sleeps ↦ none
            | fails ↦ some (m, bad)
          ]
            ≡ some u
          → Move p flag m c u.0 u.1
      go (done s) q e' = moved (record m { sems = s }, ok) u (h s q) e'
      go sleeps q e' = cc
      go fails q e' = moved (m, bad) u k e'

-- A step function that makes no other moves than those of the program, and is stuck only where the
-- program is.
pub record Conforms (p : Program) (code : Code) : Type 0 where
  pub moves :
      (flag interrupted : Bool) (m : Mem) (c : Pc) {m' : Mem} {c' : Pc}
      → code flag interrupted m c ≡ some (m', c')
      → Move p flag m c m' c'
  pub waits :
      (flag interrupted : Bool) (m : Mem) (c : Pc) → code flag interrupted m c ≡ none → Stuck p m c

-- Any number of processes run one program; an index from `n` on names no process.
pub record System : Type 0 where
  pub mem : Mem
  pub pc : ℕ → Pc
  pub flag : ℕ → Bool

pub data Step (code : Code) (n : ℕ) (s : System) : System → Type 0 where
  run :
      (i : ℕ) (interrupted : Bool) {m : Mem} {c : Pc}
      → i < n
      → code (s.flag i) interrupted s.mem (s.pc i) ≡ some (m, c)
      → Step code n s (record s { mem = m; pc = update s.pc i c })
  -- `handler`
  signal : (i : ℕ) → i < n → Step code n s (record s { flag = update s.flag i false })

-- `main` has set the semaphores and the letter up, and forked `writers` writers and then readers.
abbrev pub init : Program → ℕ → Sems → System
init p writers old = record {
  mem = record { sems = p.set_up old; buf = p.first_letter };
  pc = λ i. if ltb i writers then w_loop else r_loop;
  flag = λ _. true;
}

-- The states that can come about, from a set with any values `old`.
pub data Reach (p : Program) (code : Code) (writers n : ℕ) : System → Type 0 where
  start : (old : Sems) → length old ≡ p.nsems → Reach p code writers n (init p writers old)
  later : {s t : System} → Reach p code writers n s → Step code n s t → Reach p code writers n t
