-- ===== src/ProducerConsumer/Lesson.antt =====
-- os_lab_4/les_pc.c: producers and consumers that go back by SIZE_BUF after a 'z'. Addresses are
-- counted from `ptr_alpha_now`, the cell of the current letter, which lies before the buffer.
pub mod Laps
use os_5sem.Prelude.{
  List, [], ◌∷◌, length, ℕ, zero, suc, ◌+◌, ◌-◌, ◌≤◌, ◌<◌, ◌≡◌, refl, Option, none, some, ◌==◌, ltb,
  if◌then◌else◌, arith, ℕ_discrete,
}
use os_5sem.Prelude.Family.{update}
use os_5sem.Prelude.Int.{pos, negsuc}
use os_5sem.Posix.Semop.{Sems, Sembuf, op, semop, setval}
use os_5sem.ProducerConsumer.Slots.{Slots, Arrays, Implements}
use os_5sem.ProducerConsumer.Threads.{
  Pc, idle, p_wait, p_in, p_out, c_wait, c_in, c_out, Mem, call, Section, body,
}

abbrev pub size_buf : ℕ
size_buf = 26

-- `*ptr_alpha_now` is the cell 0; the buffer is the cells 1 to 26.
pub record Segment : Type 0 where
  pub cells : ℕ → ℕ
  pub ptr_prod : ℕ
  pub ptr_cons : ℕ

-- What `main` leaves, in a segment with the contents `found`.
abbrev pub first : (ℕ → ℕ) → Segment
first found = record { cells = update found 0 b'a'; ptr_prod = 1; ptr_cons = 1 }

-- ptr -= SIZE_BUF: `none` if that lies before the cells.
abbrev back : ℕ → Option ℕ
back ptr = if ltb ptr size_buf then none else some (ptr - size_buf)

-- `producer` between its two calls of semop.
unfoldable pub produce : Segment → Option Segment
produce s =
    let written = update s.cells s.ptr_prod (s.cells 0) in
    if written 0 == b'z'
    then elim (back s.ptr_prod) [
      | none ↦ none
      | some ptr ↦ some (record s { cells = update written 0 b'a'; ptr_prod = ptr })
    ]
    else some (record s { cells = update written 0 (written 0 + 1); ptr_prod = s.ptr_prod + 1 })

-- `consumer` between its two calls of semop, with the letter that it prints.
unfoldable pub consume : Segment → Option (Segment × ℕ)
consume s =
    if s.cells s.ptr_cons == b'z'
    then elim (back s.ptr_cons) [
      | none ↦ none
      | some ptr ↦ some (record s { ptr_cons = ptr }, s.cells s.ptr_cons)
    ]
    else some (record s { ptr_cons = s.ptr_cons + 1 }, s.cells s.ptr_cons)

-- The sections as those of a thread, with the letter that is printed.
abbrev pub put : Section Segment
put s = elim (produce s) [ none ↦ none | some t ↦ some (t, s.cells 0) ]

abbrev pub take : Section Segment
take s = consume s

abbrev pub bin_sem : ℕ
bin_sem = 0

abbrev pub buff_full : ℕ
buff_full = 1

abbrev pub buff_empty : ℕ
buff_empty = 2

abbrev pub start_produce : List Sembuf
start_produce = op buff_empty (negsuc 0) ∷ op bin_sem (negsuc 0) ∷ []

abbrev pub stop_produce : List Sembuf
stop_produce = op bin_sem (pos 1) ∷ op buff_full (pos 1) ∷ []

abbrev pub start_consume : List Sembuf
start_consume = op buff_full (negsuc 0) ∷ op bin_sem (negsuc 0) ∷ []

abbrev pub stop_consume : List Sembuf
stop_consume = op bin_sem (pos 1) ∷ op buff_empty (pos 1) ∷ []

-- The SETVAL calls of `main`.
abbrev pub set_up : Sems → Sems
set_up s = setval buff_full 0 (setval buff_empty size_buf (setval bin_sem 1 s))

abbrev pub arrays : Arrays
arrays = record {
  start_prod = start_produce;
  stop_prod = stop_produce;
  start_cons = start_consume;
  stop_cons = stop_consume;
  set_up = set_up;
}

-- A round of the loops, from the first call of semop on.
abbrev pub producer : Mem Segment → Pc → Option (Mem Segment × Pc)
producer m p_wait = call start_produce m p_in
producer m p_in = body put p_out m
producer m (p_out c) = call stop_produce m idle
producer m _ = none

abbrev pub consumer : Mem Segment → Pc → Option (Mem Segment × Pc)
consumer m c_wait = call start_consume m c_in
consumer m c_in = body take c_out m
consumer m (c_out c) = call stop_consume m idle
consumer m _ = none

abbrev pub view : Slots → Sems
view l = (if l.held then 0 else 1) ∷ l.full ∷ l.free ∷ []

set_up_view : (s : Sems) → length s ≡ 3 → set_up s ≡ 1 ∷ 0 ∷ 26 ∷ []
set_up_view (a ∷ b ∷ c ∷ []) h = refl
set_up_view _ h = absurd (omega arith)

-- The semaphores of the program are the free and the filled places of a buffer of 26 and a lock:
-- each call goes through exactly when a place and the lock are there to be taken, and `main` sets
-- the set up to that from any values.
pub lesson-Implements : Implements size_buf arrays view
unfolding semop
lesson-Implements = record {
  sets_up = set_up_view;
  starts_put = λ l. ground arith;
  starts_take = λ l. ground arith;
  stops_put = λ l h. ground arith;
  stops_take = λ l h. ground arith;
}
