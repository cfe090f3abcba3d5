-- ===== src/Bakery/Orderly.antt =====
-- os_lab_rpc/bakery/bakery_server.c where the numbers are given one at a time: the section is then
-- served in the order of the numbers, to one client at a time.
use os_5sem.Prelude.{
  ℕ, ◌+◌, ◌≤◌, ◌<◌, ◌≡◌, ◌≢◌, ◌==◌, ltb, ◌⊎◌, if◌then◌else◌, refl, sym, Bool, true, false, some,
  arith, ℕ_discrete, inl, inr, Bool-cases,
}
use mathlib.Core.Path.{subst}
use os_5sem.Prelude.Family.{update}
use os_5sem.Bakery.{
  Shared, count_clients, at_start, waits_for, Pc, asks, searching, chosen, numbered, serving,
  served, finished, client, System, Reach, start, later,
}

-- From the lock of get_number_1_svc to the store.
abbrev pub chooses : Pc → Bool
chooses (searching _ _) = true
chooses (chosen _) = true
chooses _ = false

-- Runs in which no client moves while another one stands between the lock and the store.
pub data Orderly (pid : ℕ → ℕ) : System → Type 0 where
  begins : Orderly pid (record { shared = at_start; pc = λ _. asks })
  moves :
      {s : System} {u : Shared × Pc} (ind : ℕ)
      → Orderly pid s
      → ind < count_clients
      → ((j : ℕ) → chooses (s.pc j) ≡ true → j ≡ ind)
      → client (pid ind) ind s.shared (s.pc ind) ≡ some u
      → Orderly pid (record { shared = u.0; pc = update s.pc ind u.1 })

abbrev pub has_number : Pc → Bool
has_number (numbered _) = true
has_number (serving _) = true
has_number served = true
has_number _ = false

-- How many of the tests the client has passed.
abbrev pub passed : Pc → ℕ
passed (serving i) = i
passed served = count_clients
passed _ = 0

-- What the search of a client has found of the number `n` of client `k`.
abbrev Choice : Pc → ℕ → ℕ → Type 0
Choice (searching i res) k n = k < i → n ≤ res
Choice (chosen num) k n = n < num
Choice _ k n = Unit {0}

record Inv (sh : Shared) (pc : ℕ → Pc) : Type 0 where
  idle : (i : ℕ) → has_number (pc i) ≡ false → sh.numbers i ≡ 0
  used : (i : ℕ) → has_number (pc i) ≡ true → sh.numbers i ≢ 0
  above : (i k : ℕ) → k < count_clients → Choice (pc i) k (sh.numbers k)
  clear : (i j : ℕ) → i < count_clients → j < passed (pc i) → waits_for sh i j ≡ false
  apart :
      (i j : ℕ)
      → i < count_clients
      → j < count_clients
      → i ≢ j
      → sh.numbers i ≢ 0
      → sh.numbers i ≢ sh.numbers j

Choice-other : (c : Pc) → chooses c ≡ false → (k n : ℕ) → Choice c k n
Choice-other (searching _ _) other k n = cc other
Choice-other (chosen num) other k n = cc other
Choice-other asks other k n = tt
Choice-other _ other k n = tt

numbered_quiet : (c : Pc) → has_number c ≡ true → chooses c ≡ false
numbered_quiet (searching _ _) h = cc h
numbered_quiet (chosen _) h = cc h
numbered_quiet asks h = refl
numbered_quiet _ h = refl

update_at : (pc : ℕ → Pc) (i j : ℕ) (c : Pc) → i ≡ j → update pc i c j ≡ c
update_at pc i j c e = ground arith

update_off : (pc : ℕ → Pc) (i j : ℕ) (c : Pc) → i ≢ j → update pc i c j ≡ pc j
update_off pc i j c other = ground arith

some_inj : {A : Type 0} {a b : A} → some a ≡ some b → a ≡ b
some_inj e = cc

==_of_eq : (a b : ℕ) → a ≡ b → (a == b) ≡ true
==_of_eq a b e = ground arith

==_of_ne : (a b : ℕ) → a ≢ b → (a == b) ≡ false
==_of_ne a b other = ground arith

module _ (pid : ℕ) (ind : ℕ) (lt : ind < count_clients) (sh : Shared) (pc : ℕ → Pc)
    (inv : Inv sh pc) (only : (j : ℕ) → chooses (pc j) ≡ true → j ≡ ind) where
  looked_at :
      (c : Pc)
      → ((k n : ℕ) → k < count_clients → n ≡ sh.numbers k → Choice c k n)
      → (i k : ℕ) → k < count_clients
      → Choice (update pc ind c i) k (sh.numbers k)
  looked_at c mine i k low = elim (ℕ_discrete ind i) [
    | yes it ↦ rw (update_at pc ind i c it) (mine k (sh.numbers k) low refl)
    | no other ↦ rw (update_off pc ind i c other) (inv.above i k low)
  ]

  -- A move of the search.
  looks :
      (c : Pc) (locked : ℕ → Bool)
      → has_number (pc ind) ≡ false
      → has_number c ≡ false
      → ((k n : ℕ) → k < count_clients → n ≡ sh.numbers k → Choice c k n)
      → passed c ≡ 0
      → Inv (record sh { locked = locked }) (update pc ind c)
  unfolding waits_for
  looks c locked had has mine none_passed = record {
    idle = λ i h. ground (arith, inv.idle i, inv.idle ind);
    used = λ i h. ground (arith, inv.used i);
    above = λ i k low. looked_at c mine i k low;
    clear = λ i j low h. ground (arith, inv.clear i j);
    apart = λ i j li lj other h. ground (arith, inv.apart i j);
  }

  -- The client has seen no number greater than `res`.
  found :
      {i res : ℕ}
      → pc ind ≡ searching i res
      → (k : ℕ) → k < count_clients
      → k < i
      → sh.numbers k ≤ res
  found {i} {res} e k low = subst (λ c. Choice c k (sh.numbers k)) e (inv.above ind k low)

  searched :
      (i res : ℕ)
      → pc ind ≡ searching i res
      → i ≢ count_clients
      → Inv sh
          (update pc ind (searching (i + 1) (if ltb res (sh.numbers i) then sh.numbers i else res)))
  searched i res e more =
      looks (searching (i + 1) (if ltb res (sh.numbers i) then sh.numbers i else res)) sh.locked
        (rw e refl) refl
        (λ k n low same before. elim (ℕ_discrete k i) [
          | yes it ↦ ground (arith, same, it)
          | no other ↦ ground (arith, same, found e k low (omega arith))
        ])
        refl

  -- No client is between the two any more.
  chooses_none :
      (c : Pc) → ((k n : ℕ) → Choice c k n) → (i k n : ℕ) → Choice (update pc ind c i) k n
  chooses_none c free i k n = elim (ℕ_discrete ind i) [
    | yes it ↦ rw (update_at pc ind i c it) (free k n)
    | no other ↦ rw (update_off pc ind i c other) (
        Choice-other (pc i)
          (elim (Bool-cases (chooses (pc i))) [
            | inl some_choice ↦ absurd (other (sym (only i some_choice)))
            | inr quiet ↦ quiet
          ])
          k n)
  ]

  stored :
      (num : ℕ)
      → pc ind ≡ chosen num
      → Inv
          (record {
            numbers = update sh.numbers ind num;
            pids = update sh.pids ind pid;
            locked = update sh.locked ind false;
          })
          (update pc ind (numbered num))
  unfolding waits_for
  stored num e = record {
    idle = λ i h. ground (arith, inv.idle i);
    used = λ i h. ground (arith, inv.used i, inv.above ind 0);
    above = λ i k low. chooses_none (numbered num) (λ k n. tt) i k _;
    clear = λ i j low h. ground (arith, inv.clear i j, inv.above ind i);
    apart = λ i j li lj other h. ground (arith, inv.apart i j, inv.above ind i, inv.above ind j);
  }

  -- A move that changes no number.
  moved :
      (c : Pc)
      → has_number (pc ind) ≡ true
      → has_number c ≡ true
      → ((j : ℕ) → j < passed c → waits_for sh ind j ≡ false)
      → Inv sh (update pc ind c)
  moved c had has passes = record {
    idle = λ i h. ground (arith, inv.idle i);
    used = λ i h. ground (arith, inv.used i);
    above = λ i k low. chooses_none c (Choice-other c (numbered_quiet c has)) i k _;
    clear = λ i j low h. ground (arith, inv.clear i j, passes j);
    apart = inv.apart;
  }

  reset :
      has_number (pc ind) ≡ true
      → Inv
          (record sh { numbers = update sh.numbers ind 0; pids = update sh.pids ind 0 })
          (update pc ind finished)
  unfolding waits_for
  reset had = record {
    idle = λ i h. ground (arith, inv.idle i);
    used = λ i h. ground (arith, inv.used i);
    above = λ i k low. chooses_none finished (λ k n. tt) i k _;
    clear = λ i j low h. ground (arith, inv.clear i j);
    apart = λ i j li lj other h. ground (arith, inv.apart i j);
  }

  -- What a move leaves.
  abbrev Leaves : Shared × Pc → Type 0
  Leaves u = Inv u.0 (update pc ind u.1)

  to_leave : (u v : Shared × Pc) → some u ≡ some v → Leaves u → Leaves v
  to_leave u v e h = subst Leaves (some_inj e) h

  tested :
      (i : ℕ)
      → pc ind ≡ serving i
      → i ≢ count_clients
      → Leaves (sh, if waits_for sh ind i then serving i else serving (i + 1))
  tested i e more = elim (Bool-cases (waits_for sh ind i)) [
    | inl waits ↦
        rw waits (moved (serving i) (rw e refl) refl (λ j before. inv.clear ind j lt (rw e before)))
    | inr goes ↦ rw goes (
        moved (serving (i + 1)) (rw e refl) refl (λ j before. elim (ℕ_discrete j i) [
          | yes it ↦ rw it goes
          | no other ↦ inv.clear ind j lt (rw e (omega arith))
        ]))
  ]

  client-Inv : (c : Pc) (u : Shared × Pc) → pc ind ≡ c → client pid ind sh c ≡ some u → Leaves u
  client-Inv asks u e r = elim (Bool-cases (sh.locked ind)) [
    | inl held ↦ cc (r, held)
    | inr free ↦ to_leave _ u (rw free at r) (
        looks (searching 0 (sh.numbers 0)) (update sh.locked ind true) (rw e refl) refl
          (λ k n low same before. absurd (omega arith)) refl)
  ]
  client-Inv (searching i res) u e r = elim (ℕ_discrete i count_clients) [
    | yes all ↦ to_leave _ u (rw (==_of_eq i count_clients all) at r) (
        looks (chosen (res + 1)) sh.locked (rw e refl) refl
          (λ k n low same. omega (arith, same, found e k low (omega (arith, all)))) refl)
    | no more ↦ to_leave _ u (rw (==_of_ne i count_clients more) at r) (searched i res e more)
  ]
  client-Inv (chosen num) u e r = to_leave _ u r (stored num e)
  client-Inv (numbered num) u e r =
      to_leave _ u r (moved (serving 0) (rw e refl) refl (λ j none_before. absurd (omega arith)))
  client-Inv (serving i) u e r = elim (ℕ_discrete i count_clients) [
    | yes all ↦
        to_leave _ u (rw (==_of_eq i count_clients all) at r)
          (moved served (rw e refl) refl (λ j before. inv.clear ind j lt (rw (e, all) before)))
    | no more ↦ elim (Bool-cases (sh.locked ind)) [
      | inl held ↦ cc (r, held, ==_of_ne i count_clients more)
      | inr free ↦ to_leave _ u (rw (==_of_ne i count_clients more, free) at r) (tested i e more)
    ]
  ]
  client-Inv served u e r = elim (Bool-cases (sh.locked ind)) [
    | inl held ↦ cc (r, held)
    | inr free ↦ to_leave _ u (rw free at r) (reset (rw e refl))
  ]
  client-Inv finished u e r = cc r

Orderly-Inv : {pid : ℕ → ℕ} {s : System} → Orderly pid s → Inv s.shared s.pc
Orderly-Inv begins = record {
  idle = λ i h. refl;
  used = λ i h. cc h;
  above = λ i k low. tt;
  clear = λ i j low h. absurd (omega arith);
  apart = λ i j li lj other h. absurd (h refl);
}
Orderly-Inv {pid} (moves {s} {u} ind r lt only e) =
    client-Inv (pid ind) ind lt s.shared s.pc (Orderly-Inv r) only (s.pc ind) u refl e

-- A run in which no client moves while another one stands between its lock and the store is
-- one of the runs of the server.
pub Orderly-Reach : {pid : ℕ → ℕ} {s : System} → Orderly pid s → Reach pid s
Orderly-Reach begins = start
Orderly-Reach (moves ind r lt only e) = later ind (Orderly-Reach r) lt e

-- If no client moves while another one stands between its lock and the store of its number, a
-- client that is served has the smallest of the numbers in use, and is the only one that is served.
pub bakery_in_turn :
    (pid : ℕ → ℕ) (s : System) (i : ℕ)
    → Orderly pid s
    → i < count_clients
    → s.pc i ≡ served
    → ((k : ℕ)
        → k < count_clients
        → k ≢ i
        → (s.pc k ≢ served)
          × ((s.shared.numbers k ≡ 0) ⊎ (s.shared.numbers i < s.shared.numbers k)))
unfolding waits_for
bakery_in_turn pid s i r low at k lk other =
    let inv = Orderly-Inv r in
    (
      λ both.
          ground
            (arith, at, both, inv.used i, inv.used k, inv.apart i k, inv.clear i k, inv.clear k i),
      ground (arith, at, inv.used i, inv.apart i k, inv.clear i k),
    )
