-- ===== src/ProducerConsumer/Safety.antt =====
-- What holds in every reachable state of a producer-consumer program.
use os_5sem.Prelude.{
  ℕ, ◌+◌, ◌≤◌, ◌<◌, ◌≡◌, ◌≢◌, refl, sym, ◌∙◌, ◌⊎◌, inl, inr, true, false, none, arith, ℕ_discrete,
  dec_lt, ◌-◌,
}
use os_5sem.Prelude.Family.{add-le-tally, tally-zero_below}
use os_5sem.Posix.Semop.{Sems, done, semop}
use os_5sem.ProducerConsumer.Slots.{Slots, Arrays, Implements}
use os_5sem.ProducerConsumer.Threads.{
  Pc, p_in, c_in, Mem, Section, Code, behaviour, System, ask_put, ask_take, run, Reach, start,
  later, p_wait, c_wait,
}
use os_5sem.ProducerConsumer.Counts.{
  alphabet, Counts, IsRing, IsWalk, IsRing-IsWalk, inside, at_p_in, at_p_out, at_c_in, at_c_out,
  inside-sum,
}
use os_5sem.ProducerConsumer.Invariant.{
  Inv, Inv-init, Inv-ask, behaviour-Inv, room_to_put, items_to_take,
}

module _ {S : Type 0} {size : ℕ} {p : Arrays} {view : Slots → Sems} {put take : Section S}
    {first : S} {Holds : S → ℕ → ℕ → Type 0} {code : Code S} (law : Implements size p view)
    (walk : IsWalk size put take first Holds)
    (same : (m : Mem S) (c : Pc) → code m c ≡ behaviour p put take m c) {n : ℕ} where
  pub Reach-Inv : {s : System S} → Reach p first code n s → Inv size view Holds n s
  Reach-Inv (start old size3) = Inv-init law walk old size3
  Reach-Inv (later r (ask_put i lt e)) =
      Inv-ask law walk (Reach-Inv r) i lt p_wait e (refl, refl, refl, refl, refl)
  Reach-Inv (later r (ask_take i lt e)) =
      Inv-ask law walk (Reach-Inv r) i lt c_wait e (refl, refl, refl, refl, refl)
  Reach-Inv (later {s} r (run i {u} lt e)) =
      behaviour-Inv law walk (Reach-Inv r) i lt (s.pc i) u refl (sym (same s.mem (s.pc i)) ∙ e)

  -- In every reachable state the letters that were put are the first letters of the alphabet, over
  -- and over, the letters that were taken are the first of those, in the same order, and no more
  -- than `size` of them are still in the buffer.
  pub fifo :
      {s : System S}
      → Reach p first code n s
      → (puts : ℕ) × (takes : ℕ) × (s.made ≡ alphabet puts)
        × (s.taken ≡ alphabet takes)
        × (takes ≤ puts)
        × (puts ≤ size + takes)
  fifo r =
      let inv = Reach-Inv r in
      (
        inv.puts,
        inv.takes,
        inv.made,
        inv.taken,
        omega (arith, inv.counts.fulls),
        omega (arith, inv.counts.frees),
      )

  -- In every reachable state the semaphores are places and a lock with the letters and the threads
  -- between their calls counted.
  pub counted :
      {s : System S}
      → Reach p first code n s
      → (l : Slots) × (puts : ℕ) × (takes : ℕ) × (s.mem.sems ≡ view l)
        × (s.made ≡ alphabet puts)
        × (s.taken ≡ alphabet takes)
        × Counts size l puts takes n s.pc
  counted r =
      let inv = Reach-Inv r in
      (inv.slots, inv.puts, inv.takes, inv.sems, inv.made, inv.taken, inv.counts)

  -- In every reachable state no two threads stand between their calls of semop.
  pub alone :
      {s : System S}
      → Reach p first code n s
      → (i j : ℕ) → i < n
      → j < n
      → inside (s.pc i) ≡ 1
      → inside (s.pc j) ≡ 1
      → i ≡ j
  alone {s} r i j hi hj wi wj = elim (ℕ_discrete i j) [
    | yes same_one ↦ same_one
    | no other ↦
        absurd
          (ground (arith, (Reach-Inv r).counts.locked, add-le-tally inside s.pc i j n other hi hj))
  ]

  -- Where no thread stands between its calls, the lock is open and every place is free or full.
  quiet_slots :
      {s : System S} (inv : Inv size view Holds n s)
      → ((j : ℕ) → j < n → inside (s.pc j) ≡ 0)
      → (inv.slots.held ≡ false) × (inv.slots.free + inv.slots.full ≡ size)
  quiet_slots {s} inv quiet = ground (
    arith,
    inv.counts,
    tally-zero_below inside s.pc n quiet,
    tally-zero_below at_p_in s.pc n (λ j lt. omega (arith, quiet j lt, inside-sum (s.pc j))),
    tally-zero_below at_p_out s.pc n (λ j lt. omega (arith, quiet j lt, inside-sum (s.pc j))),
    tally-zero_below at_c_in s.pc n (λ j lt. omega (arith, quiet j lt, inside-sum (s.pc j))),
    tally-zero_below at_c_out s.pc n (λ j lt. omega (arith, quiet j lt, inside-sum (s.pc j))),
  )

  -- In every reachable state in which no thread stands between its calls, the call of a producer or
  -- that of a consumer goes through, for a buffer of at least one place.
  pub never_both_wait :
      {s : System S}
      → Reach p first code n s
      → ((j : ℕ) → j < n → inside (s.pc j) ≡ 0)
      → 0 < size
      → ((t : Sems) × (semop p.start_prod s.mem.sems ≡ done t))
        ⊎ ((t : Sems) × (semop p.start_cons s.mem.sems ≡ done t))
  never_both_wait {s} r quiet some_place =
      let inv = Reach-Inv r in
      let (open_lock, places) = quiet_slots inv quiet in
      elim (dec_lt 0 inv.slots.free) [
        | yes room ↦ inl (
          view (record inv.slots { free = inv.slots.free - 1; held = true }),
          rw (inv.sems, law.starts_put inv.slots) (ground arith),
        )
        | no no_room ↦ inr (
          view (record inv.slots { full = inv.slots.full - 1; held = true }),
          rw (inv.sems, law.starts_take inv.slots) (ground arith),
        )
      ]

module _ {S : Type 0} {size : ℕ} {p : Arrays} {view : Slots → Sems} {put take : Section S}
    {first : S} {Holds : S → ℕ → ℕ → Type 0} {code : Code S} (law : Implements size p view)
    (ring : IsRing size put take first Holds)
    (same : (m : Mem S) (c : Pc) → code m c ≡ behaviour p put take m c) {n : ℕ} where
  -- In every reachable state a thread in its section accesses the buffer within its bounds.
  pub in_bounds :
      {s : System S}
      → Reach p first code n s
      → (i : ℕ) → i < n
      → (s.pc i ≡ p_in) ⊎ (s.pc i ≡ c_in)
      → code s.mem (s.pc i) ≢ none
  in_bounds {s} r i lt (inl e) fault =
      let walk = IsRing-IsWalk ring in
      let inv = Reach-Inv law walk same r in
      let (t, q, h) =
        ring.puts_next s.mem.store inv.puts inv.takes inv.holds (room_to_put law walk inv i lt e) in
      ground (arith, same s.mem p_in)
  in_bounds {s} r i lt (inr e) fault =
      let walk = IsRing-IsWalk ring in
      let inv = Reach-Inv law walk same r in
      let (t, q, h) =
        ring.takes_next s.mem.store inv.puts inv.takes inv.holds
          (items_to_take law walk inv i lt e) in
      ground (arith, same s.mem c_in)
