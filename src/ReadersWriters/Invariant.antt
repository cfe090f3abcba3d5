-- ===== src/ReadersWriters/Invariant.antt =====
-- The semaphores count the processes that stand in the section, and what a process knows of the
-- letter there is true; kept by every step.
use os_5sem.Prelude.{
  ℕ, ◌+◌, ◌%◌, ◌≤◌, ◌<◌, ◌≡◌, ◌≢◌, refl, sym, ◌∙◌, Bool, true, Option, some, if◌then◌else◌, arith,
  ℕ_discrete,
}
use mathlib.Core.Logic.{if_pos, if_neg}
use os_5sem.Prelude.Family.{update, tally, tally-update, add-le-tally}
use os_5sem.Posix.Semop.{Sems, SemResult, done}
use os_5sem.ReadersWriters.Lock.{Lock, acquire_read, release_read, acquire_write, release_write}
use os_5sem.ReadersWriters.Program.{
  Pc, r_loop, r_wait, r_in, r_out, w_loop, w_wait, w_in, w_wrap, w_load, w_store, w_out, quit,
  failed, failed_reading, failed_writing, Program, laid_out, Implements, done-laid_out,
}
use os_5sem.ReadersWriters.Process.{
  Mem, Move, read_again, read_quit, read_enter, read_fail, look, read_leave, leave_fail,
  write_again, write_quit, write_enter, write_fail, at_z, before_z, wrap, load, store, write_leave,
  done_fail,
}

-- A process counts as a reader from its semop(start_read) to its semop(stop_read), and for good if
-- the latter fails; likewise a writer.
abbrev pub reads : Pc → ℕ
reads r_in = 1
reads (r_out _) = 1
reads failed_reading = 1
reads _ = 0

abbrev pub writes : Pc → ℕ
writes w_in = 1
writes w_wrap = 1
writes w_load = 1
writes (w_store _) = 1
writes w_out = 1
writes failed_writing = 1
writes _ = 0

-- What a writer has learnt of the letter.
abbrev pub IsFresh : ℕ → Pc → Type 0
IsFresh b w_wrap = b ≡ 122
IsFresh b w_load = b < 122
IsFresh b (w_store c) = (c ≡ b) × (c < 122)
IsFresh b _ = Unit

abbrev bit : Bool → ℕ
bit b = if b then 1 else 0

-- The lock agrees with the locations of the processes.
pub record Counts (l : Lock) (n : ℕ) (pc : ℕ → Pc) : Type 0 where
  pub readers : l.readers ≡ tally reads pc n
  pub writers : bit l.writing ≡ tally writes pc n
  pub exclusive : l.writing ≡ true → l.readers ≡ 0

pub record Inv (p : Program) (view : Lock → Sems) (n : ℕ) (m : Mem) (pc : ℕ → Pc) : Type 0 where
  pub lock : Lock
  pub sems : m.sems ≡ view lock
  pub counts : Counts lock n pc
  pub low : p.first_letter ≤ m.buf
  pub high : m.buf ≤ 122
  pub fresh : (j : ℕ) → j < n → IsFresh m.buf (pc j)

Counts-update :
    (l l' : Lock) {n : ℕ} {pc : ℕ → Pc} (i : ℕ) (c : Pc)
    → Counts l n pc
    → i < n
    → l'.readers + reads (pc i) ≡ l.readers + reads c
    → bit l'.writing + writes (pc i) ≡ bit l.writing + writes c
    → (l'.writing ≡ true → l'.readers ≡ 0)
    → Counts l' n (update pc i c)
Counts-update l l' {n} {pc} i c h lt r w e = record {
  readers = omega (arith, h.readers, tally-update reads pc i c n lt);
  writers = omega (arith, h.writers, tally-update writes pc i c n lt);
  exclusive = e;
}

-- Outside the writer's section nothing is known of the letter.
pub IsFresh-outside : (b : ℕ) (c : Pc) → writes c ≡ 0 → IsFresh b c
IsFresh-outside b w_wrap h = absurd (omega arith)
IsFresh-outside b w_load h = absurd (omega arith)
IsFresh-outside b (w_store c) h = absurd (omega arith)
IsFresh-outside b _ h = tt

fresh-update :
    (b : ℕ) {n : ℕ} (pc : ℕ → Pc) (i : ℕ) (c : Pc)
    → ((j : ℕ) → j < n → IsFresh b (pc j))
    → IsFresh b c
    → (j : ℕ) → j < n
    → IsFresh b (update pc i c j)
fresh-update b pc i c h own j lt = elim (ℕ_discrete i j) [
  | yes same ↦ rw (if_pos _ same) own
  | no other ↦ rw (if_neg _ other) (h j lt)
]

-- What a program's writer does to the letter when it wraps round.
pub record IsAlphabet (p : Program) : Type 0 where
  pub starts : p.first_letter ≤ 122
  pub wraps_low : p.first_letter ≤ p.wrapped
  pub wraps_high : p.wrapped ≤ 122
  pub goes_on : writes p.after_wrap ≡ 1
  pub stays_out : reads p.after_wrap ≡ 0
  pub fresh : IsFresh p.wrapped p.after_wrap

module _ {p : Program} {view : Lock → Sems} (law : Implements p view) {n : ℕ} where
  module _ {m : Mem} {pc : ℕ → Pc} (inv : Inv p view n m pc) (i : ℕ) (lt : i < n) where
    open inv use {lock, sems, counts, low, high, fresh}

    -- A move inside or outside the section that touches no shared memory.
    Inv-quiet :
        (c : Pc)
        → reads (pc i) ≡ reads c
        → writes (pc i) ≡ writes c
        → IsFresh m.buf c
        → Inv p view n m (update pc i c)
    Inv-quiet c r w own = record {
      lock = lock;
      sems = sems;
      counts = Counts-update lock lock i c counts lt (omega arith) (omega arith) counts.exclusive;
      low = low;
      high = high;
      fresh = fresh-update m.buf pc i c fresh own;
    }

    -- A call that went through.
    Inv-lock :
        (l : Lock) {s : Sems} (c : Pc)
        → s ≡ view l
        → Counts l n (update pc i c)
        → IsFresh m.buf c
        → Inv p view n (record m { sems = s }) (update pc i c)
    Inv-lock l c e count own = record {
      lock = l;
      sems = e;
      counts = count;
      low = low;
      high = high;
      fresh = fresh-update m.buf pc i c fresh own;
    }

    others_outside : writes (pc i) ≡ 1 → (j : ℕ) → j < n → i ≢ j → writes (pc j) ≡ 0
    others_outside w j lt' ne =
        ground (arith, counts.writers, add-le-tally writes pc i j n ne lt lt')

    -- A store to the letter by a writer in the section: no other process knows anything of it.
    Inv-letter :
        (b : ℕ) (c : Pc)
        → writes (pc i) ≡ 1
        → writes c ≡ 1
        → reads (pc i) ≡ reads c
        → p.first_letter ≤ b
        → b ≤ 122
        → IsFresh b c
        → Inv p view n (record m { buf = b }) (update pc i c)
    Inv-letter b c w w' r lo hi own = record {
      lock = lock;
      sems = sems;
      counts = Counts-update lock lock i c counts lt (omega arith) (omega arith) counts.exclusive;
      low = lo;
      high = hi;
      fresh = λ j lt'. elim (ℕ_discrete i j) [
        | yes same ↦ rw (if_pos _ same) own
        | no other ↦ rw (if_neg _ other) (IsFresh-outside b (pc j) (others_outside w j lt' other))
      ];
    }

    -- A call that goes through has taken a step of the lock, and the counts with it.
    Inv-call :
        (o : Option Lock) {r : SemResult} {s : Sems} (c : Pc)
        → r ≡ laid_out view o
        → r ≡ done s
        → ((l : Lock) → o ≡ some l → Counts l n (update pc i c))
        → IsFresh m.buf c
        → Inv p view n (record m { sems = s }) (update pc i c)
    Inv-call o c e g count own =
        let (l, q, sq) = done-laid_out view o (sym e ∙ g) in Inv-lock l c sq (count l q) own

    Counts-acquire_read :
        (l : Lock) → acquire_read lock ≡ some l → pc i ≡ r_wait → Counts l n (update pc i r_in)
    Counts-acquire_read l q e =
        Counts-update lock l i r_in counts lt (ground arith) (ground arith) (ground arith)

    Counts-release_read :
        (l : Lock) {c : ℕ}
        → release_read lock ≡ some l
        → pc i ≡ r_out c
        → Counts l n (update pc i r_loop)
    Counts-release_read l q e =
        Counts-update lock l i r_loop counts lt (ground arith) (ground arith)
          (ground (arith, counts.exclusive))

    Counts-acquire_write :
        (l : Lock) → acquire_write lock ≡ some l → pc i ≡ w_wait → Counts l n (update pc i w_in)
    Counts-acquire_write l q e =
        Counts-update lock l i w_in counts lt (ground arith) (ground arith) (ground arith)

    Counts-release_write :
        (l : Lock) → release_write lock ≡ some l → pc i ≡ w_out → Counts l n (update pc i w_loop)
    Counts-release_write l q e =
        Counts-update lock l i w_loop counts lt (ground arith) (ground arith) (ground arith)

    pub Move-Inv :
        IsAlphabet p
        → {flag : Bool} {c c' : Pc} {m' : Mem} → Move p flag m c m' c'
        → pc i ≡ c
        → Inv p view n m' (update pc i c')
    Move-Inv a (read_again g) e = Inv-quiet r_wait (rw e) (rw e) tt
    Move-Inv a (read_quit g) e = Inv-quiet quit (rw e) (rw e) tt
    Move-Inv a (read_enter g) e =
        Inv-call (acquire_read lock) r_in (rw sems (law.reads lock)) g
          (λ l q. Counts-acquire_read l q e) tt
    Move-Inv a read_fail e = Inv-quiet failed (rw e) (rw e) tt
    Move-Inv a look e = Inv-quiet (r_out m.buf) (rw e) (rw e) tt
    Move-Inv a (read_leave g) e =
        Inv-call (release_read lock) r_loop (rw sems (law.stops_reading lock)) g
          (λ l q. Counts-release_read l q e) tt
    Move-Inv a leave_fail e = Inv-quiet failed_reading (rw e) (rw e) tt
    Move-Inv a (write_again g) e = Inv-quiet w_wait (rw e) (rw e) tt
    Move-Inv a (write_quit g) e = Inv-quiet quit (rw e) (rw e) tt
    Move-Inv a (write_enter g) e =
        Inv-call (acquire_write lock) w_in (rw sems (law.writes lock)) g
          (λ l q. Counts-acquire_write l q e) tt
    Move-Inv a write_fail e = Inv-quiet failed (rw e) (rw e) tt
    Move-Inv a (at_z g) e = Inv-quiet w_wrap (rw e) (rw e) g
    Move-Inv a (before_z g) e = Inv-quiet w_load (rw e) (rw e) (omega arith)
    Move-Inv a wrap e =
        Inv-letter p.wrapped p.after_wrap (rw e) a.goes_on (rw e (sym a.stays_out)) a.wraps_low
          a.wraps_high a.fresh
    Move-Inv a load e =
        let known : m.buf < 122 = rw e at (fresh i lt) in
        Inv-quiet (w_store m.buf) (rw e) (rw e) (refl, known)
    Move-Inv a (store {c}) e =
        let known : (c ≡ m.buf) × (c < 122) = rw e at (fresh i lt) in
        Inv-letter ((c + 1) % 256) w_out (rw e) refl (rw e) (omega arith) (omega arith) tt
    Move-Inv a (write_leave g) e =
        Inv-call (release_write lock) w_loop (rw sems (law.stops_writing lock)) g
          (λ l q. Counts-release_write l q e) tt
    Move-Inv a done_fail e = Inv-quiet failed_writing (rw e) (rw e) tt
