-- ===== src/ProducerConsumer/Statements/Safety.antt =====
-- What holds in every state of threads that are interleaved statement by statement.
use os_5sem.Prelude.{ℕ, ◌+◌, ◌≤◌, ◌<◌, ◌≡◌, ◌⊎◌, refl, sym, ap, ◌∙◌, List}
use mathlib.Core.Path.{subst, fun_ext}
use os_5sem.Posix.Semop.{Sems, done, semop}
use os_5sem.ProducerConsumer.Slots.{Slots, Arrays, Implements}
use os_5sem.ProducerConsumer.Threads.{Mem, Section}
use os_5sem.ProducerConsumer.Counts.{alphabet, Counts, IsWalk, inside}
use os_5sem.ProducerConsumer.Safety
use os_5sem.ProducerConsumer.Statements.{Statement, Side, Place, run_all, Moves, Running, Reaches}
use os_5sem.ProducerConsumer.Statements.Relation.{in_statements, seen, section_of}
use os_5sem.ProducerConsumer.Statements.Simulation.{Reaches-Matched}

module _ {S : Type 0} {size : ℕ} {p : Arrays} {view : Slots → Sems} {put take : Section S}
    {first : S} {Holds : S → ℕ → ℕ → Type 0} (list : Side → List (Statement S)) (code : Moves S)
    (law : Implements size p view) (walk : IsWalk size put take first Holds)
    (whole : (side : Side) (s : S) → run_all (list side) s 0 ≡ section_of put take side s)
    (same : (m : Mem S) (c : Place S) → code m c ≡ in_statements p list m c) {n : ℕ} {s : Running S}
    (q : Reaches p first code n s) where
  -- The letters that were put are the first letters of the alphabet, over and over, the letters that
  -- were taken are the first of those, in the same order, and no more than `size` of them are left.
  pub fifo :
      (puts : ℕ) × (takes : ℕ) × (s.made ≡ alphabet puts)
      × (s.taken ≡ alphabet takes)
      × (takes ≤ puts)
      × (puts ≤ size + takes)
  fifo =
      let (a, r, sim) = Reaches-Matched list law walk whole code same q in
      let (puts, takes, made, taken, low, high) = Safety.fifo law walk (λ m c. refl) r in
      (puts, takes, sym sim.made ∙ made, sym sim.taken ∙ taken, low, high)

  -- The same, with what the semaphores are: a lock that is held exactly while a thread stands between
  -- its calls, the free places and the filled ones.
  pub counted :
      (l : Slots) × (puts : ℕ) × (takes : ℕ) × (s.mem.sems ≡ view l)
      × (s.made ≡ alphabet puts)
      × (s.taken ≡ alphabet takes)
      × Counts size l puts takes n (λ i. seen (s.place i))
  counted =
      let (a, r, sim) = Reaches-Matched list law walk whole code same q in
      let (l, puts, takes, sems, made, taken, counts) = Safety.counted law walk (λ m c. refl) r in
      (
        l,
        puts,
        takes,
        sym sim.sems ∙ sems,
        sym sim.made ∙ made,
        sym sim.taken ∙ taken,
        subst (Counts size l puts takes n) (fun_ext sim.places) counts,
      )

  -- Where no thread stands between its calls, the first call of a side goes through.
  pub never_both_wait :
      ((j : ℕ) → j < n → inside (seen (s.place j)) ≡ 0)
      → 0 < size
      → ((t : Sems) × (semop p.start_prod s.mem.sems ≡ done t))
        ⊎ ((t : Sems) × (semop p.start_cons s.mem.sems ≡ done t))
  never_both_wait quiet some_place =
      let (a, r, sim) = Reaches-Matched list law walk whole code same q in
      rw (← sim.sems) (
        Safety.never_both_wait law walk (λ m c. refl) r
          (λ j lj. ap inside (sim.places j) ∙ quiet j lj) some_place)
