-- ===== src/ProducerConsumer/Statements.antt =====
-- Threads that put letters into one buffer and take them out, interleaved statement by statement. No
-- source code by itself: each program's procedures are lists of statements between calls of semop.
pub mod Relation
pub mod Simulation
pub mod Safety
use os_5sem.Prelude.{ℕ, ◌<◌, ◌≡◌, List, [], ◌∷◌, ◌++◌, Option, none, some, length}
use os_5sem.Prelude.Family.{update}
use os_5sem.Posix.Semop.{Sems}
use os_5sem.ProducerConsumer.Slots.{Arrays}
use os_5sem.ProducerConsumer.Threads.{Mem}

-- A statement acts on the shared variables and on the result of the procedure, which is the thread's
-- own; `none` for an access outside the buffer.
abbrev pub Statement : Type 0 → Type 0
Statement S = S → ℕ → Option (S × ℕ)

-- The producers' procedure or the consumers'.
pub data Side : Type 0 where
  putting taking : Side

pub data Place (S : Type 0) : Type 0 where
  resting : Place S  -- no request is served
  waits : Side → Place S  -- the first call of semop
  within : Side → List (Statement S) → ℕ → Place S  -- the statements to come, and the result so far
  leaves : Side → ℕ → Place S  -- the second call of semop, with the result

-- The next statement, or on to the second call.
abbrev pub statement :
    {S : Type 0} → Side → List (Statement S) → ℕ → Mem S → Option (Mem S × Place S)
statement side [] r m = some (m, leaves side r)
statement side (now ∷ rest) r m = elim (now m.store r) [
  | none ↦ none
  | some (t, r') ↦ some (record m { store = t }, within side rest r')
]

-- All statements, one after the other.
unfoldable pub run_all : {S : Type 0} → List (Statement S) → Statement S
run_all [] s r = some (s, r)
run_all (now ∷ rest) s r = elim (now s r) [ none ↦ none | some (t, r') ↦ run_all rest t r' ]

abbrev pub Moves : Type 0 → Type 0
Moves S = Mem S → Place S → Option (Mem S × Place S)

-- `made` and `taken` are the letters put and taken so far, in that order.
pub record Running (S : Type 0) : Type 0 where
  pub mem : Mem S
  pub place : ℕ → Place S
  pub made : List ℕ
  pub taken : List ℕ

-- A letter counts as put or taken when the last statement is done.
abbrev pub put_at : {S : Type 0} → Place S → Place S → List ℕ
put_at (within putting _ _) (leaves putting c) = c ∷ []
put_at _ _ = []

abbrev pub taken_at : {S : Type 0} → Place S → Place S → List ℕ
taken_at (within taking _ _) (leaves taking c) = c ∷ []
taken_at _ _ = []

-- A thread has moved.
abbrev pub moved : {S : Type 0} → Running S → ℕ → Mem S × Place S → Running S
moved s i u = record {
  mem = u.0;
  place = update s.place i u.1;
  made = s.made ++ put_at (s.place i) u.1;
  taken = s.taken ++ taken_at (s.place i) u.1;
}

pub data Move {S : Type 0} (code : Moves S) (n : ℕ) (s : Running S) : Running S → Type 0 where
  asks :
      (i : ℕ) (side : Side)
      → i < n
      → s.place i ≡ resting
      → Move code n s (record s { place = update s.place i (waits side) })
  goes :
      (i : ℕ) {u : Mem S × Place S}
      → i < n
      → code s.mem (s.place i) ≡ some u
      → Move code n s (moved s i u)

abbrev pub begin : {S : Type 0} → Arrays → S → Sems → Running S
begin p first old = record {
  mem = record { sems = p.set_up old; store = first };
  place = λ _. resting;
  made = [];
  taken = [];
}

pub data Reaches {S : Type 0} (p : Arrays) (first : S) (code : Moves S) (n : ℕ)
    : Running S → Type 0 where
  begins : (old : Sems) → length old ≡ 3 → Reaches p first code n (begin p first old)
  then : {s t : Running S} → Reaches p first code n s → Move code n s t → Reaches p first code n t
