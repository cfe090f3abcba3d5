-- ===== src/Processes/Reports/Examples.antt =====
-- A child that is stopped, continued and killed.
use os_5sem.Prelude.{◌≡◌, refl, inr, true, [], ◌∷◌, none, some}
use os_5sem.Processes.Reports.{
  killed, stopped, continued, stopped_by, went_on, killed_by, wait_man_main, no_pause, a_stop,
  a_start, wait_man_lem,
}

wait_man_lem_example :
    (wait_man_main true (some (stopped 19) ∷ some continued ∷ some (killed 9) ∷ none ∷ [])
      ≡ some (0, stopped_by 19 ∷ went_on ∷ killed_by 9 ∷ []))
    × (wait_man_main true (some (stopped 19) ∷ some continued ∷ none ∷ none ∷ [])
        ≡ some (1, stopped_by 19 ∷ went_on ∷ []))
    × (wait_man_main true (some (stopped 19) ∷ some continued ∷ []) ≡ none)
wait_man_lem_example =
    wait_man_lem (stopped 19 ∷ continued ∷ []) (killed 9) (none ∷ []) (a_stop 19 (a_start no_pause))
      (inr refl)
