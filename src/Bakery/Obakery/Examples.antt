-- ===== src/Bakery/Obakery/Examples.antt =====
-- Instances for the older bakery server.
use os_5sem.Prelude.{◌≡◌, refl, true, false, some, arith}
use os_5sem.Bakery.Obakery.{
  State, at_start, count_clients, late, served, delays, serve_1_svc, Reach, start, asked, next,
  obakery_numbers, obakery_late,
}
use os_5sem.Bakery.Obakery.Service.{
  Transport, number, outcome, get_number, serve, bakery_prog_1, obakery_round,
}

-- Two clients have their numbers.
abbrev one : State
one = next at_start

abbrev two : State
two = next one

one_reached : Reach one
one_reached = asked start (obakery_numbers at_start start)

two_reached : Reach two
two_reached = asked one_reached (obakery_numbers one one_reached)

obakery_late_example :
    (t u v : State) × (serve_1_svc two 1 ≡ some (served false (delays two 1 count_clients), t))
    × (serve_1_svc t 0 ≡ some (late, u))
    × (serve_1_svc u 1 ≡ some (served true (delays u 1 count_clients), v))
obakery_late_example = obakery_late two 0 1 two_reached (omega arith) (omega arith) (omega arith)

abbrev works : Transport
works = record { decodes = true; sends = true; frees = true }

obakery_round_example :
    (bakery_prog_1 get_number works at_start
      ≡ some (record { answer = number 1 0; state = one; exits = false }))
    × (bakery_prog_1 (serve 0) works one
        ≡ some (record {
          answer = outcome (served false 0);
          state = record one { number_last = 1 };
          exits = false;
        }))
obakery_round_example = obakery_round works at_start start refl refl refl refl (omega arith)
