-- ===== src/ReadersWriters/Held.antt =====
-- Who holds the lock of a readers-writers program, and which calls go through then.
use os_5sem.Prelude.{
  ℕ, ◌+◌, ◌-◌, ◌<◌, ◌≡◌, ◌≢◌, refl, ◌⊎◌, inl, inr, true, false, arith, Bool-cases, dec_lt,
}
use os_5sem.Prelude.Family.{tally, le-tally, find_positive}
use os_5sem.Posix.Semop.{Sems, SemResult, done, sleeps, semop}
use os_5sem.ReadersWriters.Lock.{Lock}
use os_5sem.ReadersWriters.Program.{
  Program, Implements, Pc, r_loop, r_wait, r_in, r_out, w_loop, w_wait, w_in, w_wrap, w_load,
  w_store, w_out, quit, failed, failed_reading, failed_writing,
}
use os_5sem.ReadersWriters.Process.{Stuck, Mem}
use os_5sem.ReadersWriters.Invariant.{reads, writes, Inv}

-- Where no process stands in a section, the lock is not held; who stands in one holds it.
module _ {p : Program} {view : Lock → Sems} {n : ℕ} {m : Mem} {pc : ℕ → Pc}
    (inv : Inv p view n m pc) where
  open inv use {lock, counts}

  pub writers-none : ((j : ℕ) → j < n → writes (pc j) ≡ 0) → lock.writing ≡ false
  writers-none h = elim (Bool-cases lock.writing) [
    | inl held ↦
        let (j, lt, busy) = find_positive writes pc n (ground (arith, counts.writers)) in
        absurd (omega (arith, h j lt))
    | inr free ↦ free
  ]

  pub readers-none : ((j : ℕ) → j < n → reads (pc j) ≡ 0) → lock.readers ≡ 0
  readers-none h = elim (dec_lt 0 (tally reads pc n)) [
    | yes held ↦ let (j, lt, busy) = find_positive reads pc n held in absurd (omega (arith, h j lt))
    | no free ↦ omega (arith, counts.readers)
  ]

  pub writer-holds : (j : ℕ) → j < n → writes (pc j) ≡ 1 → lock.writing ≡ true
  writer-holds j lt h = ground (arith, counts.writers, le-tally writes pc j n lt)

  pub reader-holds : (j : ℕ) → j < n → reads (pc j) ≡ 1 → 0 < lock.readers
  reader-holds j lt h = omega (arith, counts.readers, le-tally reads pc j n lt)

-- A call that goes through does not sleep.
pub not_asleep : {r : SemResult} → (t : Sems) × (r ≡ done t) → r ≡ sleeps → ⊥
not_asleep (t, e) q = cc

module _ {p : Program} {view : Lock → Sems} (law : Implements p view) (l : Lock) where
  pub start_read-done :
      (s : Sems) → s ≡ view l → l.writing ≡ false → (t : Sems) × (semop p.start_read s ≡ done t)
  start_read-done s e free =
      (view (record l { readers = l.readers + 1 }), rw (e, law.reads l, free) refl)

  pub start_write-done :
      (s : Sems)
      → s ≡ view l
      → l.writing ≡ false
      → l.readers ≡ 0
      → (t : Sems) × (semop p.start_write s ≡ done t)
  start_write-done s e free none_read =
      (view (record l { writing = true }), rw (e, law.writes l, free) (ground arith))

  pub stop_read-done :
      (s : Sems) → s ≡ view l → 0 < l.readers → (t : Sems) × (semop p.stop_read s ≡ done t)
  stop_read-done s e some_read =
      (view (record l { readers = l.readers - 1 }), rw (e, law.stops_reading l) (ground arith))

  pub stop_write-done :
      (s : Sems) → s ≡ view l → l.writing ≡ true → (t : Sems) × (semop p.stop_write s ≡ done t)
  stop_write-done s e held =
      (view (record l { writing = false }), rw (e, law.stops_writing l, held) refl)

  -- A process that cannot move stands in no section: the calls that leave one never sleep.
  pub Stuck-outside :
      (m : Mem)
      → m.sems ≡ view l
      → (c : Pc) → Stuck p m c
      → (c ≢ failed_reading) × (c ≢ failed_writing)
      → (writes c ≡ 1 → l.writing ≡ true)
      → (reads c ≡ 1 → 0 < l.readers)
      → (writes c ≡ 0) × (reads c ≡ 0)
  Stuck-outside m e (r_out c) stuck alive w r =
      absurd (not_asleep (stop_read-done m.sems e (r refl)) stuck)
  Stuck-outside m e w_out stuck alive w r =
      absurd (not_asleep (stop_write-done m.sems e (w refl)) stuck)
  Stuck-outside m e r_in stuck alive w r = absurd stuck
  Stuck-outside m e w_in stuck alive w r = absurd stuck
  Stuck-outside m e w_wrap stuck alive w r = absurd stuck
  Stuck-outside m e w_load stuck alive w r = absurd stuck
  Stuck-outside m e (w_store c) stuck alive w r = absurd stuck
  Stuck-outside m e failed_reading stuck alive w r = absurd (alive.0 refl)
  Stuck-outside m e failed_writing stuck alive w r = absurd (alive.1 refl)
  Stuck-outside m e _ stuck alive w r = (refl, refl)

-- A process that cannot move, though both entries are open, has ended.
pub Stuck-ended :
    (p : Program) (m : Mem) (c : Pc)
    → Stuck p m c
    → (writes c ≡ 0) × (reads c ≡ 0)
    → (t : Sems) × (semop p.start_read m.sems ≡ done t)
    → (t : Sems) × (semop p.start_write m.sems ≡ done t)
    → (c ≡ quit) ⊎ (c ≡ failed)
Stuck-ended p m r_wait stuck out r w = absurd (not_asleep r stuck)
Stuck-ended p m w_wait stuck out r w = absurd (not_asleep w stuck)
Stuck-ended p m quit stuck out r w = inl refl
Stuck-ended p m failed stuck out r w = inr refl
Stuck-ended p m r_loop stuck out r w = absurd stuck
Stuck-ended p m w_loop stuck out r w = absurd stuck
Stuck-ended p m c stuck out r w = absurd (omega arith)
