-- ===== src/ReadersWriters/Schedule.antt =====
-- Reachable states by evaluation: the processes move in a given order, none of them interrupted.
use os_5sem.Prelude.{
  ℕ, ◌<◌, ◌≡◌, refl, false, List, [], ◌∷◌, Option, none, some, length, dec_lt, ℕ_discrete,
}
use os_5sem.Posix.Semop.{Sems, semop}
use os_5sem.ReadersWriters.Program.{Pc, Program}
use os_5sem.ReadersWriters.Process.{Mem, Code, System, run, signal, Reach, start, later}

-- A state with the way that led to it.
pub record Trace (p : Program) (code : Code) (writers n : ℕ) : Type 0 where
  pub now : System
  pub reached : Reach p code writers n now

-- One entry of a schedule: a process moves, or is sent SIGINT.
pub data Turn : Type 0 where
  moves : ℕ → Turn
  gets_signal : ℕ → Turn

module _ {p : Program} {code : Code} {writers n : ℕ} where
  moved_on :
      (t : Trace p code writers n) (i : ℕ)
      → i < n
      → (o : Option (Mem × Pc)) → code (t.now.flag i) false t.now.mem (t.now.pc i) ≡ o
      → Trace p code writers n
  moved_on t i lt none e = t
  moved_on t i lt (some (m, c)) e = record { now = _; reached = later t.reached (run i false lt e) }

  take_turn : Trace p code writers n → Turn → Trace p code writers n
  unfolding moved_on dec_lt
  take_turn t (moves i) = elim (dec_lt i n) [ yes lt ↦ moved_on t i lt _ refl | no _ ↦ t ]
  take_turn t (gets_signal i) = elim (dec_lt i n) [
    | yes lt ↦ record { now = _; reached = later t.reached (signal i lt) }
    | no _ ↦ t
  ]

  take_turns : Trace p code writers n → List Turn → Trace p code writers n
  unfolding take_turn
  take_turns t [] = t
  take_turns t (x ∷ xs) = take_turns (take_turn t x) xs

-- A run from the set-up of the values `old`.
unfoldable pub follow :
    (p : Program) (code : Code) (writers n : ℕ) (old : Sems)
    → length old ≡ p.nsems
    → List Turn
    → Trace p code writers n
unfolding take_turns semop ℕ_discrete
follow p code writers n old size = take_turns (record { now = _; reached = start old size })
