-- ===== src/Processes/Serial/Examples.antt =====
-- The second child of prog2.c is killed.
use os_5sem.Prelude.{ℕ, ◌≡◌, ◌⊎◌, refl, [], ◌∷◌, arith, ℕ_discrete}
use os_5sem.Processes.{Status, exited, killed}
use os_5sem.Processes.ForkWait.{System, done}
use os_5sem.Processes.Serial.{
  returns, signal, start, forks, ends, waits, all_done, Prog2Main, prog2_ends,
}

one_killed : (s : System) × Prog2Main s × (s.main ≡ done 0)
unfolding ℕ_discrete
one_killed = (
  _,
  all_done
      (waits 1 1 (killed 9)
        (ends 1 (killed 9)
          (forks 1
            (waits 0 0 (exited 0)
              (ends 0 (exited 0) (forks 0 start refl (omega arith)) refl (returns 0 (omega arith)))
              refl refl)
            refl (omega arith))
          refl (signal 1 9))
        refl refl)
      refl,
  refl,
)

prog2_ends_example :
    (st : Status) × (sig : ℕ) × (one_killed.0.printed ≡ (0, st) ∷ (1, killed sig) ∷ [])
    × ((st ≡ exited 0) ⊎ ((sig0 : ℕ) × (st ≡ killed sig0)))
prog2_ends_example = prog2_ends one_killed.0 one_killed.1 one_killed.2
