-- ===== src/Bakery/Race.antt =====
-- os_lab_rpc/bakery/bakery_server.c: two clients in the section at once.
use os_5sem.Prelude.{ℕ, zero, suc, ◌+◌, ◌<◌, ◌≡◌, ◌≢◌, refl, ◌∙◌, true, false, arith, ℕ_discrete}
use os_5sem.Prelude.Family.{update}
use os_5sem.Bakery.{
  Shared, at_start, count_clients, waits_for, Pc, asks, searching, chosen, numbered, serving,
  served, System, Reach, start, later,
}

-- A client that passes every test comes to its section, and meanwhile changes nothing else.
walk :
    (pid : ℕ → ℕ) (ind k i : ℕ) (sh : Shared) (pc : ℕ → Pc)
    → ind < count_clients
    → i + k ≡ count_clients
    → ((j : ℕ) → j < count_clients → waits_for sh ind j ≡ false)
    → sh.locked ind ≡ false
    → pc ind ≡ serving i
    → Reach pid (record { shared = sh; pc = pc })
    → (pc' : ℕ → Pc) × Reach pid (record { shared = sh; pc = pc' })
      × (pc' ind ≡ served)
      × ((d : ℕ) → d ≢ ind → pc' d ≡ pc d)
unfolding ℕ_discrete
walk pid ind zero i sh pc lt sum pass free e r = (
  update pc ind served,
  later ind r lt (ground (arith, e)),
  ground arith,
  λ d other. ground arith,
)
walk pid ind (suc k) i sh pc lt sum pass free e r =
    let (pc', r', at, others) =
      walk pid ind k (i + 1) sh (update pc ind (serving (i + 1))) lt (omega arith) pass free
        (ground arith) (later ind r lt (ground (arith, e, pass i (omega arith)))) in
    (pc', r', at, λ d other. others d other ∙ ground arith)

-- Client 1 has its number, and client 0 has looked for the greatest number before it was stored.
abbrev one_numbered : (ℕ → ℕ) → Shared
one_numbered pid = record {
  numbers = update (λ _. 0) 1 1;
  pids = update (λ _. 0) 1 (pid 1);
  locked = update (update (update (λ _. false) 0 true) 1 true) 1 false;
}

abbrev both_numbered : (ℕ → ℕ) → Shared
both_numbered pid = record {
  numbers = update (update (λ _. 0) 1 1) 0 1;
  pids = update (update (λ _. 0) 1 (pid 1)) 0 (pid 0);
  locked = update (update (update (update (λ _. false) 0 true) 1 true) 1 false) 0 false;
}

-- A client that finds no number goes on to the store of 1, and meanwhile changes nothing.
search :
    (pid : ℕ → ℕ) (ind k i : ℕ) (sh : Shared) (pc : ℕ → Pc)
    → ind < count_clients
    → i + k ≡ count_clients
    → ((j : ℕ) → sh.numbers j ≡ 0)
    → pc ind ≡ searching i 0
    → Reach pid (record { shared = sh; pc = pc })
    → (pc' : ℕ → Pc) × Reach pid (record { shared = sh; pc = pc' })
      × (pc' ind ≡ chosen 1)
      × ((d : ℕ) → d ≢ ind → pc' d ≡ pc d)
unfolding ℕ_discrete
search pid ind zero i sh pc lt sum unused e r = (
  update pc ind (chosen 1),
  later ind r lt (ground (arith, e)),
  ground arith,
  λ d other. ground arith,
)
search pid ind (suc k) i sh pc lt sum unused e r =
    let (pc', r', at, others) =
      search pid ind k (i + 1) sh (update pc ind (searching (i + 1) 0)) lt (omega arith) unused
        (ground arith) (later ind r lt (ground (arith, e, unused i))) in
    (pc', r', at, λ d other. others d other ∙ ground arith)

abbrev both_locked : Shared
both_locked = record at_start { locked = update (update (λ _. false) 0 true) 1 true }

-- Both clients have looked for the greatest number, and client 1 goes on to the loop.
one_waits :
    (pid : ℕ → ℕ)
    → (pc : ℕ → Pc) × Reach pid (record { shared = one_numbered pid; pc = pc })
      × (pc 0 ≡ chosen 1)
      × (pc 1 ≡ serving 0)
unfolding ℕ_discrete
one_waits pid =
    let (pc0, r0, at0, others0) =
      search pid 0 5 0 both_locked (update (update (λ _. asks) 0 (searching 0 0)) 1 (searching 0 0))
        (omega arith) refl (λ j. refl) refl
        (later 1 (later 0 start (omega arith) refl) (omega arith) refl) in
    let (pc1, r1, at1, others1) =
      search pid 1 5 0 both_locked pc0 (omega arith) refl (λ j. refl) (others0 1 (omega arith))
        r0 in
    let stored : Reach pid (record { shared = one_numbered pid; pc = update pc1 1 (numbered 1) }) =
      later 1 r1 (omega arith) (rw at1 refl) in
    (
      update (update pc1 1 (numbered 1)) 1 (serving 0),
      later 1 stored (omega arith) refl,
      others1 0 (omega arith) ∙ at0,
      refl,
    )

one_passes : (pid : ℕ → ℕ) (j : ℕ) → j < count_clients → waits_for (one_numbered pid) 1 j ≡ false
unfolding waits_for ℕ_discrete
one_passes pid j lt = ground arith

zero_passes :
    (pid : ℕ → ℕ) (j : ℕ)
    → pid 0 < pid 1
    → j < count_clients
    → waits_for (both_numbered pid) 0 j ≡ false
unfolding waits_for ℕ_discrete
zero_passes pid j smaller lt = ground arith

-- If the process number of client 0 is smaller than that of client 1, a state can be reached in which
-- both of them stand behind the loop of serve_1_svc and have not reset their numbers.
pub both_served :
    (pid : ℕ → ℕ)
    → pid 0 < pid 1
    → (s : System) × Reach pid s × (s.pc 0 ≡ served) × (s.pc 1 ≡ served)
unfolding ℕ_discrete
both_served pid smaller =
    let (waiting, r, chose0, waits1) = one_waits pid in
    let (pc1, r1, at1, others1) =
      walk pid 1 5 0 (one_numbered pid) waiting (omega arith) refl (one_passes pid) refl waits1 r in
    let chose : pc1 0 ≡ chosen 1 = others1 0 (omega arith) ∙ chose0 in
    let stored : Reach pid (record { shared = both_numbered pid; pc = update pc1 0 (numbered 1) }) =
      later 0 r1 (omega arith) (rw chose refl) in
    let (pc2, r2, at2, others2) =
      walk pid 0 5 0 (both_numbered pid) (update (update pc1 0 (numbered 1)) 0 (serving 0))
        (omega arith) refl (λ j lt. zero_passes pid j smaller lt) refl refl
        (later 0 stored (omega arith) refl) in
    (record { shared = both_numbered pid; pc = pc2 }, r2, at2, others2 1 (omega arith) ∙ at1)
