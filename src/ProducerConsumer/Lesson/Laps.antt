-- ===== src/ProducerConsumer/Lesson/Laps.antt =====
-- os_lab_4/les_pc.c: where the pointers come to after a lap of the alphabet.
use os_5sem.Prelude.{
  ℕ, zero, suc, ◌+◌, ◌-◌, ◌≤◌, ◌<◌, ◌≡◌, refl, Option, none, some, arith, ℕ_discrete,
}
use os_5sem.Prelude.Family.{update}
use os_5sem.ProducerConsumer.Lesson.{Segment, size_buf, produce, consume}

-- Several rounds of the producer.
pub produces : ℕ → Segment → Option Segment
produces zero s = some s
produces (suc n) s = elim (produces n s) [ none ↦ none | some t ↦ produce t ]

-- A run of less than a lap.
within_lap :
    (n : ℕ) (s : Segment)
    → n < size_buf
    → s.cells 0 ≡ b'a'
    → 1 ≤ s.ptr_prod
    → (t : Segment) × (produces n s ≡ some t)
      × (t.cells 0 ≡ b'a' + n)
      × (t.ptr_prod ≡ s.ptr_prod + n)
      × (t.ptr_cons ≡ s.ptr_cons)
unfolding produces produce ℕ_discrete
within_lap zero s h letter_a low = (s, refl, omega arith, omega arith, refl)
within_lap (suc n) s h letter_a low =
    let (t, ran, at_letter, at_ptr, cons) = within_lap n s (omega arith) letter_a low in
    (
      record t {
        cells = update (update t.cells t.ptr_prod (t.cells 0)) 0 (t.cells 0 + 1);
        ptr_prod = t.ptr_prod + 1;
      },
      ground (arith, at_letter, at_ptr),
      omega arith,
      omega arith,
      cons,
    )

-- One more round.
next_round :
    (n : ℕ) (s t u : Segment)
    → produces n s ≡ some t
    → produce t ≡ some u
    → produces (suc n) s ≡ some u
unfolding produces
next_round n s t u before last = ground (arith, before)

-- The round that writes a 'z'.
at_z :
    (t : Segment)
    → t.cells 0 ≡ b'z'
    → size_buf ≤ t.ptr_prod
    → produce t
      ≡ some (record t {
        cells = update (update t.cells t.ptr_prod (t.cells 0)) 0 b'a';
        ptr_prod = t.ptr_prod - size_buf;
      })
unfolding produce
at_z t z far = ground arith

-- From the letter 'a', and a cell behind that of the current letter, 26 rounds of the producer lead
-- to the letter 'a' and to the cell below the one where they began.
pub lap_slides :
    (s : Segment)
    → s.cells 0 ≡ b'a'
    → 1 ≤ s.ptr_prod
    → (t : Segment) × (produces size_buf s ≡ some t)
      × (t.cells 0 ≡ b'a')
      × (t.ptr_prod + 1 ≡ s.ptr_prod)
lap_slides s letter_a low =
    let (t, ran, at_letter, at_ptr, cons) = within_lap 25 s (omega arith) letter_a low in
    let u = record t {
      cells = update (update t.cells t.ptr_prod (t.cells 0)) 0 b'a';
      ptr_prod = t.ptr_prod - size_buf;
    } in
    (u, next_round 25 s t u ran (at_z t (omega arith) (omega arith)), ground arith, omega arith)

-- Where the producer and the consumer have come to the cell of the current letter, a letter other
-- than 'z' that is put there is counted up at once: the consumer prints the letter after it, if that
-- is not 'z' itself.
pub first_cell_lost :
    (s : Segment) (c : ℕ)
    → s.cells 0 ≡ c
    → c + 1 < b'z'
    → s.ptr_prod ≡ 0
    → s.ptr_cons ≡ 0
    → (t u : Segment) × (produce s ≡ some t) × (consume t ≡ some (u, c + 1))
unfolding produce consume ℕ_discrete
first_cell_lost s c e small p q = (
  record s {
    cells = update (update s.cells s.ptr_prod (s.cells 0)) 0 (c + 1);
    ptr_prod = s.ptr_prod + 1;
  },
  record s {
    cells = update (update s.cells s.ptr_prod (s.cells 0)) 0 (c + 1);
    ptr_prod = s.ptr_prod + 1;
    ptr_cons = s.ptr_cons + 1;
  },
  ground arith,
  ground arith,
)
