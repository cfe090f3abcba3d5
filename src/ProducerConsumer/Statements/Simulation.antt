-- ===== src/ProducerConsumer/Statements/Simulation.antt =====
-- While every section is under the lock, threads that are interleaved statement by statement do what
-- they do where each section is one step.
use os_5sem.Prelude.{
  ℕ, ◌<◌, ◌≡◌, ◌≢◌, refl, sym, ap, ◌∙◌, List, [], ◌∷◌, ◌++◌, Option, none, some, ℕ_discrete,
  Option-cases, inl, inr,
}
use mathlib.Core.Path.{subst}
use mathlib.Core.Option.{some-injective}
use mathlib.Core.List.{append-nil}
use os_5sem.Prelude.Family.{update}
use os_5sem.Posix.Semop.{Sems, Sembuf, SemResult, done, sleeps, fails, semop}
use os_5sem.ProducerConsumer.Slots.{Slots, Arrays, Implements}
use os_5sem.ProducerConsumer.Threads.{
  Pc, idle, Mem, call, Section, body, behaviour, System, Reach, start, later, ask_put, ask_take,
  run, init, put_by, taken_by,
}
use os_5sem.ProducerConsumer.Counts.{IsWalk, inside}
use os_5sem.ProducerConsumer.Safety
use os_5sem.ProducerConsumer.Statements.{
  Statement, Side, putting, taking, Place, resting, waits, within, leaves, run_all, Moves, Running,
  put_at, taken_at, moved, asks, goes, Reaches, begins, then,
}
use os_5sem.ProducerConsumer.Statements.Relation.{
  start_of, stop_of, in_statements, wait_of, in_of, out_of, seen, works, section_of, Doing, Sim,
  update_at, update_ne, seen_at, Sim-quiet, Sim-enter, Sim-statement, Sim-leave,
}

called :
    {S P : Type 0} (ops : List Sembuf) (m : Mem S) (ok : P) (u : Mem S × P)
    → call ops m ok ≡ some u
    → (t : Sems) × (semop ops m.sems ≡ done t) × (u ≡ (record m { sems = t }, ok))
called {S} {P} ops m ok u e = go (semop ops m.sems) refl e
  where
    go :
        (r : SemResult)
        → semop ops m.sems ≡ r
        → elim r as (λ _. Option (Mem S × P)) [
          | done t ↦ some (record m { sems = t }, ok)
          | sleeps ↦ none
          | fails ↦ none
        ]
          ≡ some u
        → (t : Sems) × (semop ops m.sems ≡ done t) × (u ≡ (record m { sems = t }, ok))
    go (done t) q e' = (t, q, cc)
    go sleeps q e' = cc
    go fails q e' = cc

inside-works : {S : Type 0} (c : Place S) → works c ≢ 0 → inside (seen c) ≡ 1
inside-works (within putting _ _) h = refl
inside-works (within taking _ _) h = refl
inside-works resting h = absurd (h refl)
inside-works (waits _) h = absurd (h refl)
inside-works (leaves _ _) h = absurd (h refl)

-- The state is reached where sections are one step, too.
abbrev pub Matched : {S : Type 0} → Arrays → Section S → Section S → S → ℕ → Running S → Type 0
Matched {S} p put take first n s =
    (a : System S) × Reach p first (behaviour p put take) n a × Sim put take n s a

-- A call of semop that goes through in the one goes through in the other.
call-carries :
    {S : Type 0} (ops : List Sembuf) (m k : Mem S) (ok : Pc) (t : Sems)
    → k.sems ≡ m.sems
    → semop ops m.sems ≡ done t
    → call ops k ok ≡ some (record k { sems = t }, ok)
call-carries ops m k ok t e q =
    let goes_through : semop ops k.sems ≡ done t = ap (semop ops) e ∙ q in
    rw (goes_through, call) refl

module _ {S : Type 0} (p : Arrays) (put take : Section S) (m : Mem S) where
  at_wait :
      (side : Side) → behaviour p put take m (wait_of side) ≡ call (start_of p side) m (in_of side)
  at_wait putting = refl
  at_wait taking = refl

  at_out :
      (side : Side) (r : ℕ) → behaviour p put take m (out_of side r) ≡ call (stop_of p side) m idle
  at_out putting r = refl
  at_out taking r = refl

  at_in :
      (side : Side) (t : S) (r : ℕ)
      → section_of put take side m.store ≡ some (t, r)
      → behaviour p put take m (in_of side) ≡ some (record m { store = t }, out_of side r)
  at_in putting t r e = rw (e, body) refl
  at_in taking t r e = rw (e, body) refl

put_at-within :
    {S : Type 0} (c : Place S) (side : Side) (rest : List (Statement S)) (r : ℕ)
    → (put_at c (within side rest r) ≡ []) × (taken_at c (within side rest r) ≡ [])
put_at-within resting side rest r = (refl, refl)
put_at-within (waits _) side rest r = (refl, refl)
put_at-within (leaves _ _) side rest r = (refl, refl)
put_at-within (within putting _ _) side rest r = (refl, refl)
put_at-within (within taking _ _) side rest r = (refl, refl)

inside-in_of : (side : Side) → inside (in_of side) ≡ 1
inside-in_of putting = refl
inside-in_of taking = refl

seen-put : {S : Type 0} (c d : Place S) → put_by (seen c) (seen d) ≡ put_at c d
seen-put (within putting _ _) (leaves putting r) = refl
seen-put (within putting _ _) (leaves taking r) = refl
seen-put (within putting _ _) (within putting _ _) = refl
seen-put (within putting _ _) (within taking _ _) = refl
seen-put (within putting _ _) (waits putting) = refl
seen-put (within putting _ _) (waits taking) = refl
seen-put (within putting _ _) resting = refl
seen-put (within taking _ _) _ = refl
seen-put (waits putting) _ = refl
seen-put (waits taking) _ = refl
seen-put (leaves putting _) _ = refl
seen-put (leaves taking _) _ = refl
seen-put resting _ = refl

seen-taken : {S : Type 0} (c d : Place S) → taken_by (seen c) (seen d) ≡ taken_at c d
seen-taken (within taking _ _) (leaves putting r) = refl
seen-taken (within taking _ _) (leaves taking r) = refl
seen-taken (within taking _ _) (within putting _ _) = refl
seen-taken (within taking _ _) (within taking _ _) = refl
seen-taken (within taking _ _) (waits putting) = refl
seen-taken (within taking _ _) (waits taking) = refl
seen-taken (within taking _ _) resting = refl
seen-taken (within putting _ _) _ = refl
seen-taken (waits putting) _ = refl
seen-taken (waits taking) _ = refl
seen-taken (leaves putting _) _ = refl
seen-taken (leaves taking _) _ = refl
seen-taken resting _ = refl

module _ {S : Type 0} {size : ℕ} {p : Arrays} {view : Slots → Sems} {put take : Section S}
    {first : S} {Holds : S → ℕ → ℕ → Type 0} (list : Side → List (Statement S))
    (law : Implements size p view) (walk : IsWalk size put take first Holds)
    (whole : (side : Side) (s : S) → run_all (list side) s 0 ≡ section_of put take side s)
    {n : ℕ} where
  -- In a reached state a thread behind its first call is the only one that works.
  others_rest :
      {s : Running S} {a : System S}
      → Reach p first (behaviour p put take) n a
      → Sim put take n s a
      → (i : ℕ) → i < n
      → inside (a.pc i) ≡ 1
      → (j : ℕ) → j < n
      → i ≢ j
      → works (s.place j) ≡ 0
  others_rest {s} {a} r sim i lt here j lj other = elim (ℕ_discrete (works (s.place j)) 0) [
    | yes z ↦ z
    | no some_work ↦ absurd (
        other (
          Safety.alone law walk (λ m c. refl) r i j lt lj here
            (ap inside (sim.places j) ∙ inside-works (s.place j) some_work)))
  ]

  module _ {s : Running S} {a : System S} (r : Reach p first (behaviour p put take) n a)
      (sim : Sim put take n s a) (i : ℕ) (lt : i < n) where
    -- The thread's step where a section is one step.
    coarse :
        (m : Mem S) (c d : Place S)
        → s.place i ≡ c
        → behaviour p put take a.mem (seen c) ≡ some (m, seen d)
        → Reach p first (behaviour p put take) n (
            seen_at sim i lt m d
              (s.made ++ put_at (s.place i) d)
              (s.taken ++ taken_at (s.place i) d))
    coarse m c d e b =
        let made_eq : a.made ++ put_by (a.pc i) (seen d) ≡ s.made ++ put_at (s.place i) d =
          rw (sim.made, sim.places i, seen-put (s.place i) d) refl in
        let taken_eq : a.taken ++ taken_by (a.pc i) (seen d) ≡ s.taken ++ taken_at (s.place i) d =
          rw (sim.taken, sim.places i, seen-taken (s.place i) d) refl in
        rw (← made_eq, ← taken_eq)
          (later r (run i lt (ap (behaviour p put take a.mem) (sim.places i ∙ ap seen e) ∙ b)))

    -- The same for a call of semop.
    coarse_call :
        (ops : List Sembuf) (t : Sems) (c d : Place S)
        → s.place i ≡ c
        → behaviour p put take a.mem (seen c) ≡ call ops a.mem (seen d)
        → semop ops s.mem.sems ≡ done t
        → Reach p first (behaviour p put take) n (
            seen_at sim i lt
              (record a.mem { sems = t })
              d
              (s.made ++ put_at (s.place i) d)
              (s.taken ++ taken_at (s.place i) d))
    coarse_call ops t c d e b q =
        coarse (record a.mem { sems = t }) c d e
          (b ∙ call-carries ops s.mem a.mem (seen d) t sim.sems q)

    coarse_asks :
        (side : Side)
        → s.place i ≡ resting
        → Reach p first (behaviour p put take) n (record a { pc = update a.pc i (wait_of side) })
    coarse_asks putting e = later r (ask_put i lt (sim.places i ∙ ap seen e))
    coarse_asks taking e = later r (ask_take i lt (sim.places i ∙ ap seen e))

    Match-asks :
        (side : Side)
        → s.place i ≡ resting
        → Matched p put take first n (record s { place = update s.place i (waits side) })
    Match-asks side e = (
      seen_at sim i lt (record a.mem { sems = s.mem.sems }) (waits side) s.made s.taken,
      rw (← sim.made, ← sim.taken, ← sim.sems) (coarse_asks side e),
      Sim-quiet sim i lt s.mem.sems (waits side) s.made s.taken (ap works e) refl,
    )

    nobody_inside :
        (side : Side) (m : Mem S) (made taken : List ℕ) (all : List (Statement S))
        → works (s.place i) ≡ 0
        → Reach p first (behaviour p put take) n (seen_at sim i lt m (within side all 0) made taken)
        → (j : ℕ) → j < n
        → works (s.place j) ≡ 0
    nobody_inside side m made taken all before r1 j lj = elim (ℕ_discrete i j) [
      | yes it ↦ ap (λ k. works (s.place k)) (sym it) ∙ before
      | no other ↦ elim (ℕ_discrete (works (s.place j)) 0) [
        | yes z ↦ z
        | no some_work ↦ absurd (
            other (
              Safety.alone law walk (λ m c. refl) r1 i j lt lj
                (ap inside (update_at a.pc (in_of side) refl) ∙ inside-in_of side)
                (ap inside (update_ne a.pc (in_of side) other ∙ sim.places j)
                  ∙ inside-works (s.place j) some_work)))
      ]
    ]

    Match-goes :
        (c : Place S) (u : Mem S × Place S)
        → s.place i ≡ c
        → in_statements p list s.mem c ≡ some u
        → Matched p put take first n (moved s i u)
    unfolding run_all
    Match-goes resting u e b = cc
    Match-goes (waits side) u e b =
        let d = within side (list side) 0 in
        let (t, q, eu) = called (start_of p side) s.mem d u b in
        let r1 =
          coarse_call (start_of p side) t (waits side) d e (at_wait p put take a.mem side) q in
        let nobody =
          nobody_inside side (record a.mem { sems = t }) (s.made ++ put_at (s.place i) d)
            (s.taken ++ taken_at (s.place i) d) (list side) (ap works e) r1 in
        subst (λ w. Matched p put take first n (moved s i w)) (sym eu)
          (
            seen_at sim i lt (record a.mem { sems = t }) d (s.made ++ put_at (s.place i) d)
                (s.taken ++ taken_at (s.place i) d),
            r1,
            Sim-enter sim i lt t side (list side) (s.made ++ put_at (s.place i) d)
                (s.taken ++ taken_at (s.place i) d) nobody
                (whole side s.mem.store ∙ ap (section_of put take side) (sym (sim.calm nobody))),
          )
    Match-goes (within side [] r') u e b =
        let d = leaves side r' in
        let eu : (s.mem, d) ≡ u = some-injective (s.mem, d) u b in
        let alone : (j : ℕ) → j < n → i ≢ j → works (s.place j) ≡ 0 =
          others_rest r sim i lt (ap inside (sim.places i ∙ ap seen e) ∙ inside-in_of side) in
        subst (λ w. Matched p put take first n (moved s i w)) eu
          (
            seen_at sim i lt (record a.mem { store = s.mem.store }) d
                (s.made ++ put_at (s.place i) d) (s.taken ++ taken_at (s.place i) d),
            coarse (record a.mem { store = s.mem.store }) (within side [] r') d e
                (at_in p put take a.mem side s.mem.store r'
                  (sym (subst (Doing put take s.mem.store a.mem.store) e (sim.under_way i lt)))),
            Sim-leave sim i lt alone side r' (s.made ++ put_at (s.place i) d)
                (s.taken ++ taken_at (s.place i) d),
          )
    Match-goes (within side (now ∷ rest) r') u e b = elim (Option-cases (now s.mem.store r')) [
      | inl fault ↦ cc (rw fault at b)
      | inr ((t, r''), q) ↦
          let d = within side rest r'' in
          let eu : (record s.mem { store = t }, d) ≡ u =
            some-injective (record s.mem { store = t }, d) u (rw q at b) in
          let alone : (j : ℕ) → j < n → i ≢ j → works (s.place j) ≡ 0 =
            others_rest r sim i lt (ap inside (sim.places i ∙ ap seen e) ∙ inside-in_of side) in
          let left : run_all (now ∷ rest) s.mem.store r' ≡ section_of put take side a.mem.store =
            subst (Doing put take s.mem.store a.mem.store) e (sim.under_way i lt) in
          let (no_put, no_take) = put_at-within (s.place i) side rest r'' in
          let made_eq : s.made ++ put_at (s.place i) d ≡ s.made =
            ap (λ l. s.made ++ l) no_put ∙ append-nil s.made in
          let taken_eq : s.taken ++ taken_at (s.place i) d ≡ s.taken =
            ap (λ l. s.taken ++ l) no_take ∙ append-nil s.taken in
          subst (λ w. Matched p put take first n (moved s i w)) eu
            (
              a,
              r,
              rw (made_eq, taken_eq)
                  (Sim-statement sim i lt alone side t (now ∷ rest) rest r' r'' e (rw q at left)),
            )
    ]
    Match-goes (leaves side r') u e b =
        let d : Place S = resting in
        let (t, q, eu) = called (stop_of p side) s.mem d u b in
        subst (λ w. Matched p put take first n (moved s i w)) (sym eu)
          (
            seen_at sim i lt (record a.mem { sems = t }) d (s.made ++ put_at (s.place i) d)
                (s.taken ++ taken_at (s.place i) d),
            coarse_call (stop_of p side) t (leaves side r') d e (at_out p put take a.mem side r') q,
            Sim-quiet sim i lt t d (s.made ++ put_at (s.place i) d)
                (s.taken ++ taken_at (s.place i) d) (ap works e) refl,
          )

  module _ (code : Moves S)
      (same : (m : Mem S) (c : Place S) → code m c ≡ in_statements p list m c) where
    -- Every state of the threads is one of those where a section is one step, but for what the thread
    -- in its section has done so far.
    pub Reaches-Matched : {s : Running S} → Reaches p first code n s → Matched p put take first n s
    Reaches-Matched (begins old size3) = (
      init p first old,
      start old size3,
      record {
        sems = refl;
        made = refl;
        taken = refl;
        places = λ i. refl;
        under_way = λ i lt. tt;
        calm = λ none_works. refl;
      },
    )
    Reaches-Matched (then q (asks i side lt e)) =
        let (a, r, sim) = Reaches-Matched q in Match-asks r sim i lt side e
    Reaches-Matched (then {s} q (goes i {u} lt e)) =
        let (a, r, sim) = Reaches-Matched q in
        Match-goes r sim i lt (s.place i) u refl (sym (same s.mem (s.place i)) ∙ e)
