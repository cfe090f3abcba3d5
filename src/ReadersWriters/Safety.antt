-- ===== src/ReadersWriters/Safety.antt =====
-- What holds in every reachable state of a readers-writers program.
use os_5sem.Prelude.{
  ℕ, ◌+◌, ◌≤◌, ◌<◌, ◌≡◌, ◌≢◌, refl, ◌⊎◌, false, none, length, arith, ℕ_discrete, if◌then◌else◌,
}
use os_5sem.Prelude.Family.{tally, tally-zero, le-tally, add-le-tally}
use os_5sem.Posix.Semop.{Sems, done, semop}
use os_5sem.ReadersWriters.Lock.{Lock, unlocked}
use os_5sem.ReadersWriters.Program.{
  Program, Implements, quit, failed, failed_reading, failed_writing,
}
use os_5sem.ReadersWriters.Process.{
  Code, Conforms, Stuck, System, Step, run, signal, init, Reach, start, later,
}
use os_5sem.ReadersWriters.Invariant.{reads, writes, IsFresh-outside, Inv, IsAlphabet, Move-Inv}
use os_5sem.ReadersWriters.Held.{
  writers-none, readers-none, writer-holds, reader-holds, start_read-done, start_write-done,
  Stuck-outside, Stuck-ended,
}

Inv-init :
    {p : Program} {view : Lock → Sems}
    → Implements p view
    → IsAlphabet p
    → (w n : ℕ) (old : Sems) → length old ≡ p.nsems
    → Inv p view n (init p w old).mem (init p w old).pc
Inv-init {p} law a w n old size = record {
  lock = unlocked;
  sems = law.sets_up old size;
  counts = record {
    readers = omega (arith, tally-zero reads (init p w old).pc (λ i. ground arith) n);
    writers = omega (arith, tally-zero writes (init p w old).pc (λ i. ground arith) n);
    exclusive = λ _. refl;
  };
  low = omega arith;
  high = a.starts;
  fresh = λ j lt. IsFresh-outside p.first_letter ((init p w old).pc j) (ground arith);
}

Step-Inv :
    {p : Program} {view : Lock → Sems} {code : Code}
    → Implements p view
    → IsAlphabet p
    → Conforms p code
    → {n : ℕ} {s t : System} → Step code n s t
    → Inv p view n s.mem s.pc
    → Inv p view n t.mem t.pc
Step-Inv law a conforms {s = s} (run i interrupted lt e) inv =
    Move-Inv law inv i lt a (conforms.moves (s.flag i) interrupted s.mem (s.pc i) e) refl
Step-Inv law a conforms (signal i lt) inv = inv

module _ {p : Program} {view : Lock → Sems} {code : Code} (law : Implements p view)
    (a : IsAlphabet p) (conforms : Conforms p code) {writers : ℕ} {n : ℕ} where
  pub Reach-Inv : {s : System} → Reach p code writers n s → Inv p view n s.mem s.pc
  Reach-Inv (start old size) = Inv-init law a writers n old size
  Reach-Inv (later r st) = Step-Inv law a conforms st (Reach-Inv r)

  -- In every reachable state a process in the writer's section is alone: no other process of the
  -- program stands in a writer's or a reader's section.
  pub mutual_exclusion :
      {s : System}
      → Reach p code writers n s
      → (i j : ℕ) → i < n
      → j < n
      → writes (s.pc i) ≡ 1
      → writes (s.pc j) + reads (s.pc j) ≡ 1
      → i ≡ j
  mutual_exclusion {s} r i j hi hj wi busy = elim (ℕ_discrete i j) [
    | yes same ↦ same
    | no other ↦ absurd (
        grind (
          arith,
          r_count,
          w_count,
          exclusive,
          add-le-tally writes s.pc i j n other hi hj,
          le-tally reads s.pc j n hj,
          le-tally writes s.pc i n hi,
        ))
  ]
    where
      open (Reach-Inv r) use {counts}
      open counts use {readers as r_count, writers as w_count, exclusive}

  -- In every reachable state the shared letter lies between the program's first letter and 'z',
  -- however many writers change it.
  pub letter_in_range :
      {s : System} → Reach p code writers n s → (p.first_letter ≤ s.mem.buf) × (s.mem.buf ≤ 122)
  letter_in_range r = ((Reach-Inv r).low, (Reach-Inv r).high)

  -- In every reachable state the semaphore set is that of the lock whose readers are the processes
  -- in a reader's section and whose writer is the process in a writer's section: between the calls
  -- the set records nothing of the processes that wait.
  pub sems_count_sections :
      {s : System}
      → Reach p code writers n s
      → (l : Lock) × (s.mem.sems ≡ view l)
        × (l.readers ≡ tally reads s.pc n)
        × ((if l.writing then 1 else 0) ≡ tally writes s.pc n)
  sems_count_sections r =
      let inv = Reach-Inv r in (inv.lock, inv.sems, inv.counts.readers, inv.counts.writers)

  -- In every reachable state a reader's semop(start_read) goes through at once, if no process
  -- stands in a writer's section; whether writers wait makes no difference.
  pub reader_admitted :
      {s : System}
      → Reach p code writers n s
      → ((j : ℕ) → j < n → writes (s.pc j) ≡ 0)
      → (t : Sems) × (semop p.start_read s.mem.sems ≡ done t)
  reader_admitted {s} r none_writes =
      let inv = Reach-Inv r in
      start_read-done law inv.lock s.mem.sems inv.sems (writers-none inv none_writes)

  -- In every reachable state a writer's semop(start_write) goes through at once, if no process
  -- stands in a section of either kind.
  pub writer_admitted :
      {s : System}
      → Reach p code writers n s
      → ((j : ℕ) → j < n → writes (s.pc j) + reads (s.pc j) ≡ 0)
      → (t : Sems) × (semop p.start_write s.mem.sems ≡ done t)
  writer_admitted {s} r all_outside =
      let inv = Reach-Inv r in
      start_write-done law inv.lock s.mem.sems inv.sems
        (writers-none inv (λ j lt. omega (arith, all_outside j lt)))
        (readers-none inv (λ j lt. omega (arith, all_outside j lt)))

  -- No deadlock: in a reachable state in which no process can move, even one that is not
  -- interrupted, and no process has failed inside its section, every process has ended.
  pub no_deadlock :
      {s : System}
      → Reach p code writers n s
      → ((i : ℕ) → i < n → code (s.flag i) false s.mem (s.pc i) ≡ none)
      → ((i : ℕ) → i < n → (s.pc i ≢ failed_reading) × (s.pc i ≢ failed_writing))
      → (i : ℕ) → i < n
      → (s.pc i ≡ quit) ⊎ (s.pc i ≡ failed)
  no_deadlock {s} r still alive i lt =
      Stuck-ended p s.mem (s.pc i) (stuck i lt) (outside i lt)
        (start_read-done law lock s.mem.sems sems no_writer)
        (start_write-done law lock s.mem.sems sems no_writer
          (readers-none inv (λ j lt'. (outside j lt').1)))
    where
      inv : Inv p view n s.mem s.pc
      inv = Reach-Inv r

      open inv use {lock, sems}

      stuck : (j : ℕ) → j < n → Stuck p s.mem (s.pc j)
      stuck j lt' = conforms.waits (s.flag j) false s.mem (s.pc j) (still j lt')

      outside : (j : ℕ) → j < n → (writes (s.pc j) ≡ 0) × (reads (s.pc j) ≡ 0)
      outside j lt' =
          Stuck-outside law lock s.mem sems (s.pc j) (stuck j lt') (alive j lt')
            (writer-holds inv j lt') (reader-holds inv j lt')

      no_writer : lock.writing ≡ false
      no_writer = writers-none inv (λ j lt'. (outside j lt').0)
