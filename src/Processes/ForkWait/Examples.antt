-- ===== src/Processes/ForkWait/Examples.antt =====
-- Two children of prog3.c, the second of which ends first.
use os_5sem.Prelude.{ℕ, ◌≤◌, ◌<◌, ◌≡◌, refl, arith, ℕ_discrete}
use os_5sem.Processes.{Status, exited, killed}
use os_5sem.Processes.Count.{unborn, reaped}
use os_5sem.Processes.ForkWait.{
  System, start, forks, forked_all, ends, waits, waited_all, Execs, program, signal, done,
  Prog3Main,
}
use os_5sem.Processes.ForkWait.Laws.{reports_of, fork_wait_done}

-- The programs may end with any status.
abbrev Any : ℕ → ℕ → Type 0
Any i code = code < 256

both_end : (s : System) × Prog3Main Any s × (s.main ≡ done 0)
unfolding ℕ_discrete
both_end = (
  _,
  waited_all
      (waits 1 0 (exited 0)
        (waits 0 1 (killed 9)
          (ends 0 (exited 0)
            (ends 1 (killed 9)
              (forked_all (forks 1 (forks 0 start refl (omega arith)) refl (omega arith)) refl) refl
              (signal 1 9))
            refl (program 0 0 (omega arith)))
          refl (omega arith) refl)
        refl (omega arith) refl)
      refl,
  refl,
)

fork_wait_done_example :
    ((i : ℕ)
      → i < 2
      → (st : Status) × (both_end.0.child i ≡ reaped st)
        × Execs Any i st
        × (reports_of i both_end.0.printed ≡ 1))
    × ((i : ℕ) → 2 ≤ i → (both_end.0.child i ≡ unborn) × (reports_of i both_end.0.printed ≡ 0))
fork_wait_done_example = fork_wait_done both_end.1 both_end.2
