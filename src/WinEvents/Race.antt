-- ===== src/WinEvents/Race.antt =====
-- lab_win/winwr.c: two writers, and a reader and a writer, are in at the same time, because
-- `start_write` and `start_read` test the counters before they count the thread itself.
use os_5sem.Prelude.{ℕ, ◌+◌, ◌-◌, ◌≤◌, ◌<◌, ◌≡◌, ◌≢◌, ◌∙◌, refl, true, none, some, arith, sym, ap}
use os_5sem.Prelude.Family.{update}
use os_5sem.WinEvents.{
  readers_num, threads, Shared, at_start, Pc, r_loop, r_enter, r_writer, r_queue, r_lock, r_unqueue,
  r_count, r_set, r_unlock, r_in, w_loop, w_enter, w_readers, w_writer, w_unqueue, w_count, w_in,
  code, init, System, Reach, start, later,
}

-- A step of one thread while no Ctrl-C has come.
step_to :
    (i : ℕ) (s : Shared) (pc : ℕ → Pc) (c : Pc) (s' : Shared) (c' : Pc)
    → Reach (record { shared = s; pc = pc; flag = true })
    → i < threads
    → pc i ≡ c
    → code true i s c ≡ some (s', c')
    → Reach (record { shared = s'; pc = update pc i c'; flag = true })
step_to i s pc c s' c' r below at e = later i r below (ap (code true i s) at ∙ e)

here : (pc : ℕ → Pc) (i : ℕ) (c : Pc) → update pc i c i ≡ c
here pc i c = ground arith

other : (pc : ℕ → Pc) (i j : ℕ) (c : Pc) → i ≢ j → update pc i c j ≡ pc j
other pc i j c ne = ground arith

-- A writer that finds nobody counted comes to its test of writers.
to_test :
    (i : ℕ) (s : Shared) (pc : ℕ → Pc)
    → Reach (record { shared = s; pc = pc; flag = true })
    → i < threads
    → pc i ≡ w_loop
    → s.active_readers ≡ 0
    → s.active_writer ≡ 0
    → (t : Shared) × (pc' : ℕ → Pc) × Reach (record { shared = t; pc = pc'; flag = true })
      × (pc' i ≡ w_unqueue)
      × (t.active_readers ≡ 0)
      × (t.active_writer ≡ 0)
      × (t.mutex ≡ s.mutex)
      × ((j : ℕ) → i ≢ j → pc' j ≡ pc j)
unfolding code
to_test i s pc r below at ar aw =
    let pc1 = update pc i w_enter in
    let r1 = step_to i s pc w_loop s w_enter r below at refl in
    let s2 = record s { writers_queue = s.writers_queue + 1 } in
    let pc2 = update pc1 i w_readers in
    let r2 = step_to i s pc1 w_enter s2 w_readers r1 below (here pc i w_enter) refl in
    let pc3 = update pc2 i w_writer in
    let r3 =
      step_to i s2 pc2 w_readers s2 w_writer r2 below (here pc1 i w_readers) (ground arith) in
    let pc4 = update pc3 i w_unqueue in
    let r4 = step_to i s2 pc3 w_writer s2 w_unqueue r3 below (here pc2 i w_writer) (ground arith) in
    (s2, pc4, r4, here pc3 i w_unqueue, ar, aw, refl, λ j ne. ground arith)

-- A writer past its test comes in, whoever is in.
write_now :
    (i : ℕ) (s : Shared) (pc : ℕ → Pc)
    → Reach (record { shared = s; pc = pc; flag = true })
    → i < threads
    → pc i ≡ w_unqueue
    → (t : Shared) × (pc' : ℕ → Pc) × Reach (record { shared = t; pc = pc'; flag = true })
      × (pc' i ≡ w_in)
      × ((j : ℕ) → i ≢ j → pc' j ≡ pc j)
unfolding code
write_now i s pc r below at =
    let s1 = record s { writers_queue = s.writers_queue - 1 } in
    let pc1 = update pc i w_count in
    let r1 = step_to i s pc w_unqueue s1 w_count r below at refl in
    let s2 = record s1 { active_writer = s.active_writer + 1 } in
    let pc2 = update pc1 i w_in in
    let r2 = step_to i s1 pc1 w_count s2 w_in r1 below (here pc i w_count) refl in
    (s2, pc2, r2, here pc1 i w_in, λ j ne. ground arith)

-- A reader that finds no writer comes to its wait for the mutex.
read_test :
    (i : ℕ) (s : Shared) (pc : ℕ → Pc)
    → Reach (record { shared = s; pc = pc; flag = true })
    → i < threads
    → pc i ≡ r_loop
    → s.active_writer ≡ 0
    → s.writers_queue ≡ 0
    → (t : Shared) × (pc' : ℕ → Pc) × Reach (record { shared = t; pc = pc'; flag = true })
      × (pc' i ≡ r_lock)
      × (t.active_readers ≡ s.active_readers)
      × (t.active_writer ≡ s.active_writer)
      × (t.mutex ≡ s.mutex)
      × ((j : ℕ) → i ≢ j → pc' j ≡ pc j)
unfolding code
read_test i s pc r below at aw wq =
    let pc1 = update pc i r_enter in
    let r1 = step_to i s pc r_loop s r_enter r below at refl in
    let s2 = record s { readers_queue = s.readers_queue + 1 } in
    let pc2 = update pc1 i r_writer in
    let r2 = step_to i s pc1 r_enter s2 r_writer r1 below (here pc i r_enter) refl in
    let pc3 = update pc2 i r_queue in
    let r3 = step_to i s2 pc2 r_writer s2 r_queue r2 below (here pc1 i r_writer) (ground arith) in
    let pc4 = update pc3 i r_lock in
    let r4 = step_to i s2 pc3 r_queue s2 r_lock r3 below (here pc2 i r_queue) (ground arith) in
    (s2, pc4, r4, here pc3 i r_lock, refl, refl, refl, λ j ne. ground arith)

-- A reader that waits for the free mutex comes in, whoever is in.
read_now :
    (i : ℕ) (s : Shared) (pc : ℕ → Pc)
    → Reach (record { shared = s; pc = pc; flag = true })
    → i < threads
    → pc i ≡ r_lock
    → s.mutex ≡ none
    → (t : Shared) × (pc' : ℕ → Pc) × Reach (record { shared = t; pc = pc'; flag = true })
      × (pc' i ≡ r_in)
      × ((j : ℕ) → i ≢ j → pc' j ≡ pc j)
unfolding code
read_now i s pc r below at free =
    let s1 = record s { mutex = some i } in
    let pc1 = update pc i r_unqueue in
    let r1 = step_to i s pc r_lock s1 r_unqueue r below at (ground arith) in
    let s2 = record s1 { readers_queue = s.readers_queue - 1 } in
    let pc2 = update pc1 i r_count in
    let r2 = step_to i s1 pc1 r_unqueue s2 r_count r1 below (here pc i r_unqueue) refl in
    let s3 = record s2 { active_readers = s.active_readers + 1 } in
    let pc3 = update pc2 i r_set in
    let r3 = step_to i s2 pc2 r_count s3 r_set r2 below (here pc1 i r_count) refl in
    let s4 = record s3 { can_read = true } in
    let pc4 = update pc3 i r_unlock in
    let r4 = step_to i s3 pc3 r_set s4 r_unlock r3 below (here pc2 i r_set) refl in
    let s5 = record s4 { mutex = none } in
    let pc5 = update pc4 i r_in in
    let r5 = step_to i s4 pc4 r_unlock s5 r_in r4 below (here pc3 i r_unlock) refl in
    (s5, pc5, r5, here pc4 i r_in, λ j ne. ground arith)

-- Any two writers can stand between start_write and stop_write at the same time.
pub two_writers :
    (i j : ℕ)
    → i ≢ j
    → readers_num ≤ i
    → i < threads
    → readers_num ≤ j
    → j < threads
    → (s : System) × Reach s × (s.pc i ≡ w_in) × (s.pc j ≡ w_in)
two_writers i j ne wi hi wj hj =
    let back = λ (e : j ≡ i). ne (sym e) in
    let (s1, pc1, r1, at1, ar1, aw1, m1, kept1) =
      to_test i at_start init.pc start hi (ground arith) refl refl in
    let (s2, pc2, r2, at2, ar2, aw2, m2, kept2) =
      to_test j s1 pc1 r1 hj (kept1 j ne ∙ ground arith) ar1 aw1 in
    let (s3, pc3, r3, at3, kept3) = write_now i s2 pc2 r2 hi (kept2 i back ∙ at1) in
    let (s4, pc4, r4, at4, kept4) = write_now j s3 pc3 r3 hj (kept3 j ne ∙ at2) in
    (record { shared = s4; pc = pc4; flag = true }, r4, kept4 i back ∙ at3, at4)

-- Any reader can stand between start_read and stop_read while any writer stands between start_write
-- and stop_write.
pub reader_meets_writer :
    (i j : ℕ)
    → i < readers_num
    → readers_num ≤ j
    → j < threads
    → (s : System) × Reach s × (s.pc i ≡ r_in) × (s.pc j ≡ w_in)
reader_meets_writer i j hi wj hj =
    let ne : i ≢ j = λ e. omega (arith, e) in
    let back = λ (e : j ≡ i). ne (sym e) in
    let low : i < threads = omega arith in
    let (s1, pc1, r1, at1, ar1, aw1, m1, kept1) =
      read_test i at_start init.pc start low (ground arith) refl refl in
    let (s2, pc2, r2, at2, ar2, aw2, m2, kept2) =
      to_test j s1 pc1 r1 hj (kept1 j ne ∙ ground arith) ar1 aw1 in
    let (s3, pc3, r3, at3, kept3) = read_now i s2 pc2 r2 low (kept2 i back ∙ at1) (m2 ∙ m1) in
    let (s4, pc4, r4, at4, kept4) = write_now j s3 pc3 r3 hj (kept3 j ne ∙ at2) in
    (record { shared = s4; pc = pc4; flag = true }, r4, kept4 i back ∙ at3, at4)
