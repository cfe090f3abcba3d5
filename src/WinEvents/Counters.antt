-- ===== src/WinEvents/Counters.antt =====
-- lab_win/winwr.c: the four counters against where the threads stand.
use os_5sem.Prelude.{ℕ, ◌+◌, ◌≤◌, ◌<◌, ◌≡◌, refl, sym, Bool, some, arith}
use os_5sem.Prelude.Family.{update, tally, tally-update, tally-zero, le-tally}
use os_5sem.WinEvents.{
  threads, Shared, Pc, r_loop, r_writer, r_queue, r_wait, r_lock, r_unqueue, r_set, r_unlock, r_in,
  r_leave, w_loop, w_readers, w_writer, w_wait, w_unqueue, w_in, w_wrap, w_load, w_store, w_leave,
  code, init, System, Reach, start, later, ctrl_c,
}

abbrev pub queued_reader : Pc → ℕ
queued_reader r_writer = 1
queued_reader r_queue = 1
queued_reader r_wait = 1
queued_reader r_lock = 1
queued_reader r_unqueue = 1
queued_reader _ = 0

abbrev pub counted_reader : Pc → ℕ
counted_reader r_set = 1
counted_reader r_unlock = 1
counted_reader r_in = 1
counted_reader r_leave = 1
counted_reader _ = 0

abbrev pub queued_writer : Pc → ℕ
queued_writer w_readers = 1
queued_writer w_writer = 1
queued_writer w_wait = 1
queued_writer w_unqueue = 1
queued_writer _ = 0

abbrev pub counted_writer : Pc → ℕ
counted_writer w_in = 1
counted_writer w_wrap = 1
counted_writer w_load = 1
counted_writer (w_store _) = 1
counted_writer w_leave = 1
counted_writer _ = 0

-- What one step does to the counters.
record Counted (s : Shared) (c : Pc) (t : Shared) (d : Pc) : Type 0 where
  rq : t.readers_queue + queued_reader c ≡ s.readers_queue + queued_reader d
  ar : t.active_readers + counted_reader c ≡ s.active_readers + counted_reader d
  wq : t.writers_queue + queued_writer c ≡ s.writers_queue + queued_writer d
  aw : t.active_writer + counted_writer c ≡ s.active_writer + counted_writer d

code_lem :
    (flag : Bool) (i : ℕ) (s t : Shared) (c d : Pc)
    → code flag i s c ≡ some (t, d)
    → queued_reader c ≤ s.readers_queue
    → counted_reader c ≤ s.active_readers
    → queued_writer c ≤ s.writers_queue
    → counted_writer c ≤ s.active_writer
    → Counted s c t d
unfolding code
code_lem flag i s t r_loop d e a b x y = ground arith
code_lem flag i s t _ d e a b x y = ground arith

record Inv (s : System) : Type 0 where
  rq : s.shared.readers_queue ≡ tally queued_reader s.pc threads
  ar : s.shared.active_readers ≡ tally counted_reader s.pc threads
  wq : s.shared.writers_queue ≡ tally queued_writer s.pc threads
  aw : s.shared.active_writer ≡ tally counted_writer s.pc threads

-- A counter that moves by what the thread's weight moves stays the sum of the weights.
balance :
    (w : Pc → ℕ) (pc : ℕ → Pc) (i x y : ℕ) (d : Pc)
    → i < threads
    → y + w (pc i) ≡ x + w d
    → x ≡ tally w pc threads
    → y ≡ tally w (update pc i d) threads
balance w pc i x y d below e sum = omega (arith, tally-update w pc i d threads below)

under : (w : Pc → ℕ) (pc : ℕ → Pc) (i x : ℕ) → i < threads → x ≡ tally w pc threads → w (pc i) ≤ x
under w pc i x below sum = omega (arith, le-tally w pc i threads below)

Inv-later :
    {s : System} {u : Shared × Pc} (i : ℕ)
    → Inv s
    → i < threads
    → code s.flag i s.shared (s.pc i) ≡ some u
    → Inv (record s { shared = u.0; pc = update s.pc i u.1 })
Inv-later {s} {u} i inv below e =
    let pc = s.pc in
    let moved =
      code_lem s.flag i s.shared u.0 (pc i) u.1 e
        (under queued_reader pc i s.shared.readers_queue below inv.rq)
        (under counted_reader pc i s.shared.active_readers below inv.ar)
        (under queued_writer pc i s.shared.writers_queue below inv.wq)
        (under counted_writer pc i s.shared.active_writer below inv.aw) in
    record {
      rq =
          balance queued_reader pc i s.shared.readers_queue u.0.readers_queue u.1 below moved.rq
            inv.rq;
      ar =
          balance counted_reader pc i s.shared.active_readers u.0.active_readers u.1 below moved.ar
            inv.ar;
      wq =
          balance queued_writer pc i s.shared.writers_queue u.0.writers_queue u.1 below moved.wq
            inv.wq;
      aw =
          balance counted_writer pc i s.shared.active_writer u.0.active_writer u.1 below moved.aw
            inv.aw;
    }

at_start_lem : (w : Pc → ℕ) → w r_loop ≡ 0 → w w_loop ≡ 0 → 0 ≡ tally w init.pc threads
at_start_lem w r v = sym (tally-zero w init.pc (λ i. ground arith) threads)

Reach-Inv : {s : System} → Reach s → Inv s
Reach-Inv start = record {
  rq = at_start_lem queued_reader refl refl;
  ar = at_start_lem counted_reader refl refl;
  wq = at_start_lem queued_writer refl refl;
  aw = at_start_lem counted_writer refl refl;
}
Reach-Inv (later i r below e) = Inv-later i (Reach-Inv r) below e
Reach-Inv (ctrl_c r) =
    let inv = Reach-Inv r in record { rq = inv.rq; ar = inv.ar; wq = inv.wq; aw = inv.aw }

-- In every reachable state each of the four counters is the number of the threads that stand between
-- its increment and its decrement.
pub win_counters :
    {s : System}
    → Reach s
    → (s.shared.readers_queue ≡ tally queued_reader s.pc threads)
      × (s.shared.active_readers ≡ tally counted_reader s.pc threads)
      × (s.shared.writers_queue ≡ tally queued_writer s.pc threads)
      × (s.shared.active_writer ≡ tally counted_writer s.pc threads)
win_counters r = let inv = Reach-Inv r in (inv.rq, inv.ar, inv.wq, inv.aw)
