-- ===== src/Posix/Semop.antt =====
-- semop(2) and semctl(2) with SETVAL on a System V semaphore set, as the programs use them.
-- The operations of one call are taken in the order of the array, and the call is atomic: either
-- each of them can go through and the set is replaced, or nothing changes and the caller sleeps.
use os_5sem.Prelude.{
  ℕ, zero, suc, ◌+◌, ◌-◌, List, [], ◌∷◌, Option, none, some, leb, ◌==◌, if◌then◌else◌, get_elem?,
  set,
}
use os_5sem.Prelude.Int.{ℤ, pos, negsuc}

-- The values of a set, by semaphore number.
abbrev pub Sems : Type 0
Sems = List ℕ

-- `struct sembuf`. Its flags do not change the outcome of a call: SEM_UNDO acts when a process ends.
pub record Sembuf : Type 0 where
  pub sem_num : ℕ
  pub sem_op : ℤ

abbrev pub op : ℕ → ℤ → Sembuf
op n k = record { sem_num = n; sem_op = k }

pub data SemResult : Type 0 where
  done : Sems → SemResult
  sleeps : SemResult
  fails : SemResult  -- EFBIG: no such semaphore in the set

-- One operation on the value of its semaphore; `none` if the caller has to wait.
abbrev pub apply_op : ℤ → ℕ → Option ℕ
apply_op (pos zero) v = if v == 0 then some v else none
apply_op (pos (suc k)) v = some (v + suc k)
apply_op (negsuc k) v = if leb (suc k) v then some (v - suc k) else none

unfoldable pub semop : List Sembuf → Sems → SemResult
semop [] s = done s
semop (o ∷ ops) s = elim (get_elem? s o.sem_num) [
  | none ↦ fails
  | some v ↦ elim (apply_op o.sem_op v) [ none ↦ sleeps | some v' ↦ semop ops (set s o.sem_num v') ]
]

-- semctl(semid, n, SETVAL, v)
abbrev pub setval : ℕ → ℕ → Sems → Sems
setval n v s = set s n v
