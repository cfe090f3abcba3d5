-- ===== src/Bakery/Order.antt =====
-- os_lab_rpc/bakery/bakery_server.c: the numbers, and the order in which they let the clients
-- through.
use os_5sem.Prelude.{
  ℕ, zero, suc, ◌+◌, ◌≤◌, ◌<◌, ◌≡◌, ◌≢◌, ◌⊎◌, inl, inr, refl, true, false, some, arith, ℕ_discrete,
  dec_lt, Bool-cases,
}
use os_5sem.Bakery.{
  Shared, count_clients, max_loop, max_number, waits_for, searching, chosen, client,
}

pub max_loop-bounds : (numbers : ℕ → ℕ) (n k : ℕ) → k < n → numbers k ≤ max_loop numbers n
unfolding max_loop
max_loop-bounds numbers zero k lt = absurd (omega arith)
max_loop-bounds numbers (suc n) k lt = elim (dec_lt k n) [
  | yes before ↦ ground (arith, max_loop-bounds numbers n k before)
  | no last ↦ ground arith
]

-- While the numbers stay as they are, the rounds of the search come to the greatest of them.
search_round :
    (pid ind i : ℕ) (s : Shared)
    → i < count_clients
    → client pid ind s (searching i (max_loop s.numbers i))
      ≡ some (s, searching (i + 1) (max_loop s.numbers (suc i)))
unfolding max_loop
search_round pid ind i s more = ground arith

search_ends :
    (pid ind : ℕ) (s : Shared)
    → client pid ind s (searching count_clients (max_loop s.numbers count_clients))
      ≡ some (s, chosen (max_number s.numbers + 1))
search_ends pid ind s = refl

-- Two clients with numbers and different process numbers do not both pass the test against the
-- other one.
pub waits_for_total :
    (s : Shared) (i j : ℕ)
    → s.numbers i ≢ 0
    → s.numbers j ≢ 0
    → s.pids i ≢ s.pids j
    → (waits_for s i j ≡ true) ⊎ (waits_for s j i ≡ true)
unfolding waits_for
waits_for_total s i j ni nj other = elim (Bool-cases (waits_for s i j)) [
  | inl w ↦ inl w
  | inr p ↦ inr (ground arith)
]

same_index : (s : Shared) (i j : ℕ) → i ≡ j → waits_for s i j ≡ false
unfolding waits_for
same_index s i j e = ground arith

waited_number : (s : Shared) (i j : ℕ) → waits_for s i j ≡ true → s.numbers j ≢ 0
unfolding waits_for
waited_number s i j w = ground arith

no_number : (s : Shared) (i j : ℕ) → s.numbers j ≡ 0 → waits_for s i j ≡ false
unfolding waits_for
no_number s i j e = ground arith

goes_on : (s : Shared) (k n j : ℕ) → n ≡ j → waits_for s k n ≡ false → waits_for s k j ≡ false
goes_on s k n j e h = rw (← e) h

-- A client that another one waits for does not wait for those that the other one passes.
before_both :
    (s : Shared) (k n j : ℕ)
    → waits_for s k n ≡ true
    → waits_for s k j ≡ false
    → waits_for s n j ≡ false
unfolding waits_for
before_both s k n j w p = ground arith

-- Among the first `n` clients, if any has a number, one with a number waits for none of them.
first_of :
    (s : Shared) (n : ℕ)
    → ((k : ℕ) → k < n → s.numbers k ≡ 0)
      ⊎ ((k : ℕ) × (k < n) × (s.numbers k ≢ 0) × ((j : ℕ) → j < n → waits_for s k j ≡ false))
first_of s zero = inl (λ k lt. absurd (omega arith))
first_of s (suc n) = elim (first_of s n) [
  | inl none_before ↦ elim (ℕ_discrete (s.numbers n) 0) [
    | yes free ↦
        inl
          (λ k lt. elim (dec_lt k n) [ yes before ↦ none_before k before | no last ↦ ground arith ])
    | no used ↦ inr (
      n,
      omega arith,
      used,
      λ j lt. elim (dec_lt j n) [
        | yes before ↦ no_number s n j (none_before j before)
        | no last ↦ same_index s n j (omega arith)
      ],
    )
  ]
  | inr (k, lt, used, passes) ↦ elim (Bool-cases (waits_for s k n)) [
    | inl waits ↦ inr (
      n,
      omega arith,
      waited_number s k n waits,
      λ j lt'. elim (dec_lt j n) [
        | yes before ↦ before_both s k n j waits (passes j before)
        | no last ↦ same_index s n j (omega arith)
      ],
    )
    | inr goes ↦ inr (
      k,
      omega arith,
      used,
      λ j lt'. elim (dec_lt j n) [
        | yes before ↦ passes j before
        | no last ↦ goes_on s k n j (omega arith) goes
      ],
    )
  ]
]

-- Whenever one of the five clients has a number, one of them with a number passes the test against
-- every client.
pub waits_for_first :
    (s : Shared) (i : ℕ)
    → i < count_clients
    → s.numbers i ≢ 0
    → (k : ℕ) × (k < count_clients)
      × (s.numbers k ≢ 0)
      × ((j : ℕ) → j < count_clients → waits_for s k j ≡ false)
waits_for_first s i lt used = elim (first_of s count_clients) [
  | inl unused ↦ absurd (used (unused i lt))
  | inr found ↦ found
]
