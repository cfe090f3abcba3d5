-- ===== src/ProducerConsumer/Threads.antt =====
-- Threads that put letters into one buffer and take them out, and their interleavings. No source
-- code by itself: each program's procedures are step functions over these locations.
use os_5sem.Prelude.{ℕ, ◌+◌, ◌%◌, ◌<◌, ◌≡◌, List, [], ◌∷◌, ◌++◌, Option, none, some, length}
use os_5sem.Prelude.Family.{update}
use os_5sem.Posix.Semop.{Sems, Sembuf, done, sleeps, fails, semop}
use os_5sem.ProducerConsumer.Slots.{Arrays}

-- Where a thread stands, where the section between the two calls is one step. Statements has the
-- sections statement by statement, and its Simulation shows that the lock makes them such steps.
pub data Pc : Type 0 where
  idle : Pc  -- no request is served
  p_wait : Pc  -- semop(start_prod)
  p_in : Pc  -- in the section
  p_out : ℕ → Pc  -- semop(stop_prod), with the reply
  c_wait : Pc  -- semop(start_cons)
  c_in : Pc
  c_out : ℕ → Pc  -- semop(stop_cons), with the reply

-- The shared semaphores, and the shared variables of the program.
pub record Mem (S : Type 0) : Type 0 where
  pub sems : Sems
  pub store : S

-- `none`: the thread cannot move. Where semop returns -1 the whole server exits, and no state
-- follows.
abbrev pub call : {S P : Type 0} → List Sembuf → Mem S → P → Option (Mem S × P)
call ops m ok = elim (semop ops m.sems) [
  | done t ↦ some (record m { sems = t }, ok)
  | sleeps ↦ none
  | fails ↦ none
]

-- The section of a producer or consumer: `none` for an access outside the buffer.
abbrev pub Section : Type 0 → Type 0
Section S = S → Option (S × ℕ)

abbrev pub body : {S : Type 0} → Section S → (ℕ → Pc) → Mem S → Option (Mem S × Pc)
body f ok m = elim (f m.store) [ none ↦ none | some (t, c) ↦ some (record m { store = t }, ok c) ]

abbrev pub Code : Type 0 → Type 0
Code S = Mem S → Pc → Option (Mem S × Pc)

module _ {S : Type 0} (p : Arrays) (put take : Section S) where
  abbrev pub behaviour : Code S
  behaviour m idle = none
  behaviour m p_wait = call p.start_prod m p_in
  behaviour m p_in = body put p_out m
  behaviour m (p_out c) = call p.stop_prod m idle
  behaviour m c_wait = call p.start_cons m c_in
  behaviour m c_in = body take c_out m
  behaviour m (c_out c) = call p.stop_cons m idle

-- `made` and `taken` are the letters put and taken so far, in that order.
pub record System (S : Type 0) : Type 0 where
  pub mem : Mem S
  pub pc : ℕ → Pc
  pub made : List ℕ
  pub taken : List ℕ

-- The letter that a move from one location to another puts or takes.
abbrev pub put_by : Pc → Pc → List ℕ
put_by p_in (p_out c) = c ∷ []
put_by _ _ = []

abbrev pub taken_by : Pc → Pc → List ℕ
taken_by c_in (c_out c) = c ∷ []
taken_by _ _ = []

-- A thread has moved.
abbrev pub after : {S : Type 0} → System S → ℕ → Mem S × Pc → System S
after s i u = record {
  mem = u.0;
  pc = update s.pc i u.1;
  made = s.made ++ put_by (s.pc i) u.1;
  taken = s.taken ++ taken_by (s.pc i) u.1;
}

pub data Step {S : Type 0} (code : Code S) (n : ℕ) (s : System S) : System S → Type 0 where
  ask_put : (i : ℕ) → i < n → s.pc i ≡ idle → Step code n s (record s { pc = update s.pc i p_wait })
  ask_take :
      (i : ℕ) → i < n → s.pc i ≡ idle → Step code n s (record s { pc = update s.pc i c_wait })
  run :
      (i : ℕ) {u : Mem S × Pc} → i < n → code s.mem (s.pc i) ≡ some u → Step code n s (after s i u)

abbrev pub init : {S : Type 0} → Arrays → S → Sems → System S
init p first old = record {
  mem = record { sems = p.set_up old; store = first };
  pc = λ _. idle;
  made = [];
  taken = [];
}

pub data Reach {S : Type 0} (p : Arrays) (first : S) (code : Code S) (n : ℕ)
    : System S → Type 0 where
  start : (old : Sems) → length old ≡ 3 → Reach p first code n (init p first old)
  later : {s t : System S} → Reach p first code n s → Step code n s t → Reach p first code n t

-- The letter of the k-th item, and the first n of them.
abbrev pub letter : ℕ → ℕ
letter k = 97 + k % 26
