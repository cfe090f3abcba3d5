-- ===== src/Bakery/Examples.antt =====
-- The bakery server runs: the theorems about it at concrete tables.
use os_5sem.Prelude.{
  ℕ, suc, ◌+◌, ◌-◌, ◌*◌, ◌/◌, true, Option, ◌⊎◌, ◌<◌, ◌≡◌, ◌≢◌, refl, false, some, arith,
  ℕ_discrete,
}
use os_5sem.Prelude.Family.{update}
use os_5sem.Bakery.{Shared, at_start, waits_for, System, Reach, served}
use os_5sem.Bakery.Order.{waits_for_first}
use os_5sem.Bakery.Race.{both_served}
use os_5sem.Bakery.Request.{result}
use os_5sem.Bakery.Visit.{Calls, Ended, returned, visit, Quiet, bakery_visit}
use os_5sem.Bakery.Orderly.{Orderly, begins, moves, bakery_in_turn}

-- Clients 1 and 3 have the number 4, and client 2 has 6.
abbrev busy : Shared
busy = record {
  numbers = update (update (update (λ _. 0) 1 4) 3 4) 2 6;
  pids = update (update (update (λ _. 0) 1 100) 3 90) 2 80;
  locked = λ _. false;
}

waits_for_first_example :
    (k : ℕ) × (k < 5) × (busy.numbers k ≢ 0) × ((j : ℕ) → j < 5 → waits_for busy k j ≡ false)
unfolding ℕ_discrete
waits_for_first_example = waits_for_first busy 2 (omega arith) (omega arith)

both_served_example : (s : System) × Reach suc s × (s.pc 0 ≡ served) × (s.pc 1 ≡ served)
both_served_example = both_served suc (omega arith)

-- Client 2 asks for its number, looks at the five numbers, passes the five tests, and is served.
abbrev ids : ℕ → ℕ
ids k = 100 + k

abbrev Visited : Type 0
Visited = (s : System) × Orderly ids s × (s.pc 2 ≡ served)

two_served : Visited
unfolding waits_for ℕ_discrete
two_served = (
  _,
  moves 2
      (moves 2
        (moves 2
          (moves 2
            (moves 2
              (moves 2
                (moves 2
                  (moves 2
                    (moves 2
                      (moves 2
                        (moves 2
                          (moves 2
                            (moves 2
                              (moves 2 (moves 2 begins (omega arith) (λ j e. cc e) refl)
                                (omega arith) (λ j e. ground arith) refl)
                              (omega arith) (λ j e. ground arith) refl)
                            (omega arith) (λ j e. ground arith) refl)
                          (omega arith) (λ j e. ground arith) refl)
                        (omega arith) (λ j e. ground arith) refl)
                      (omega arith) (λ j e. ground arith) refl)
                    (omega arith) (λ j e. ground arith) refl)
                  (omega arith) (λ j e. ground arith) refl)
                (omega arith) (λ j e. ground arith) refl)
              (omega arith) (λ j e. ground arith) refl)
            (omega arith) (λ j e. ground arith) refl)
          (omega arith) (λ j e. ground arith) refl)
        (omega arith) (λ j e. ground arith) refl)
      (omega arith) (λ j e. ground arith) refl,
  refl,
)

bakery_in_turn_example :
    (two_served.0.pc 4 ≢ served)
    × ((two_served.0.shared.numbers 4 ≡ 0)
        ⊎ (two_served.0.shared.numbers 2 < two_served.0.shared.numbers 4))
bakery_in_turn_example =
    bakery_in_turn ids two_served.0 2 two_served.1 (omega arith) two_served.2 4 (omega arith)
      (omega arith)

-- The first request is not answered, and the second one is.
abbrev some_luck : Calls
some_luck = record {
  created = true;
  sent1 = true;
  sent2 = true;
  first = record { allocates = true; decodes = true; sends = false };
  second = record { allocates = true; decodes = true; sends = true };
}

abbrev visits : Option (Ended ℕ)
visits = visit ◌+◌ ◌-◌ ◌*◌ ◌/◌ (λ x. x) 0 some_luck 103 3 2 3 at_start

bakery_visit_example : (s : Shared) × (visits ≡ some (returned (some (result 5)) s)) × Quiet s
bakery_visit_example =
    bakery_visit ◌+◌ ◌-◌ ◌*◌ ◌/◌ (λ x. x) 0 103 3 2 3 (omega arith) some_luck at_start refl refl
      refl refl refl refl (λ k. (refl, refl))
