-- ===== src/Processes/Reports.antt =====
-- os_lab_2/wait_man.c: a process that waits for its one child until a report says that it has ended.
mod Examples
use os_5sem.Prelude.{
  ℕ, zero, suc, ◌+◌, ◌≡◌, ◌⊎◌, refl, ap, Bool, true, false, List, [], ◌∷◌, ◌++◌, Option, none, some,
  if◌then◌else◌, not, ◌&&◌, inl, inr, Bool-cases, arith,
}

-- `wstatus`, with the status or the number of the signal.
pub data Report : Type 0 where
  exited killed stopped : ℕ → Report
  continued : Report

-- The tests are made one after the other, and a line is printed for the first that holds.
pub data Line : Type 0 where
  exited_with killed_by stopped_by : ℕ → Line
  went_on : Line

abbrev pub line : Report → Line
line (exited n) = exited_with n
line (killed n) = killed_by n
line (stopped n) = stopped_by n
line continued = went_on

abbrev pub is_exited : Report → Bool
is_exited (exited n) = true
is_exited _ = false

abbrev pub is_signaled : Report → Bool
is_signaled (killed n) = true
is_signaled _ = false

-- The `do` loop over what the calls of waitpid give, `none` for one that fails. The exit status with
-- the lines printed; `none` if the reports run out, and the parent waits on.
unfoldable pub parent : List (Option Report) → Option (ℕ × List Line)
parent [] = none
parent (none ∷ more) = some (1, [])
parent (some r ∷ more) =
    let rest = parent more in
    if not (is_exited r) && not (is_signaled r)
    then (elim rest [ none ↦ none | some (code, lines) ↦ some (code, line r ∷ lines) ])
    else some (0, line r ∷ [])

-- fork, and the parent. The exit status of the parent.
abbrev pub wait_man_main : Bool → List (Option Report) → Option (ℕ × List Line)
wait_man_main forks reports = if forks then parent reports else some (1, [])

-- A child stops and goes on.
pub data IsPause : List Report → Type 0 where
  no_pause : IsPause []
  a_stop : {rs : List Report} (sig : ℕ) → IsPause rs → IsPause (stopped sig ∷ rs)
  a_start : {rs : List Report} → IsPause rs → IsPause (continued ∷ rs)

abbrev all_some : List Report → List (Option Report) → List (Option Report)
all_some [] more = more
all_some (r ∷ rs) more = some r ∷ all_some rs more

abbrev lines_of : List Report → List Line
lines_of [] = []
lines_of (r ∷ rs) = line r ∷ lines_of rs

parent-pause :
    (rs : List Report) (next : List (Option Report)) (code : ℕ) (lines : List Line)
    → IsPause rs
    → parent next ≡ some (code, lines)
    → parent (all_some rs next) ≡ some (code, lines_of rs ++ lines)
unfolding parent
parent-pause _ next code lines no_pause e = e
parent-pause _ next code lines (a_stop {rs} sig p) e = rw (parent-pause rs next code lines p e) refl
parent-pause _ next code lines (a_start {rs} p) e = rw (parent-pause rs next code lines p e) refl

parent-end :
    (r : Report) (more : List (Option Report))
    → (is_exited r ≡ true) ⊎ (is_signaled r ≡ true)
    → parent (some r ∷ more) ≡ some (0, line r ∷ [])
unfolding parent
parent-end r more e = ground arith

parent-waits : (rs : List Report) → IsPause rs → parent (all_some rs []) ≡ none
unfolding parent
parent-waits _ no_pause = refl
parent-waits _ (a_stop {rs} sig p) = rw (parent-waits rs p) refl
parent-waits _ (a_start {rs} p) = rw (parent-waits rs p) refl

-- However often the child is stopped and continued before, the parent prints every report up to that of
-- the child's end, exits with status 0 at that one, and takes no later report; it exits with status 1 if
-- waitpid fails first; and it goes on waiting while neither has come.
pub wait_man_lem :
    (rs : List Report) (r : Report) (more : List (Option Report))
    → IsPause rs
    → (is_exited r ≡ true) ⊎ (is_signaled r ≡ true)
    → (wait_man_main true (all_some rs (some r ∷ more)) ≡ some (0, lines_of rs ++ line r ∷ []))
      × (wait_man_main true (all_some rs (none ∷ more)) ≡ some (1, lines_of rs ++ []))
      × (wait_man_main true (all_some rs []) ≡ none)
wait_man_lem rs r more p ended = (
  parent-pause rs (some r ∷ more) 0 (line r ∷ []) p (parent-end r more ended),
  parent-pause rs (none ∷ more) 1 [] p (unfold parent in refl),
  parent-waits rs p,
)
