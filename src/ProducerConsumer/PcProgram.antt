-- ===== src/ProducerConsumer/PcProgram.antt =====
-- os_lab_4/pc/src/pc.c: producers and consumers that walk through the shared segment and do not come
-- back to its start. Addresses are counted from the start of the segment.
use os_5sem.Prelude.{
  ℕ, ◌+◌, ◌≤◌, ◌<◌, ◌≡◌, suc, refl, Option, none, some, ◌==◌, ltb, if◌then◌else◌, arith, ℕ_discrete,
  List, [], ◌∷◌, length,
}
use os_5sem.Prelude.Family.{update}
use os_5sem.Prelude.Int.{pos, negsuc}
use os_5sem.Posix.Semop.{Sems, Sembuf, op, semop, setval}
use os_5sem.ProducerConsumer.Slots.{Slots, Arrays, Implements}
use os_5sem.ProducerConsumer.Threads.{
  Pc, idle, p_wait, p_in, p_out, c_wait, c_in, c_out, Mem, call, Section, body, letter,
}

abbrev pub n_buf : ℕ
n_buf = 10

-- What is asked of shmget.
abbrev pub asked : ℕ
asked = n_buf + 3

-- `alfa`: 8 pointers behind `cons_ptr`, which stands 8 pointers of 8 bytes behind `prod_ptr`.
abbrev pub alfa : ℕ
alfa = 128

-- The bytes of the segment, and the two pointers that stand in it.
pub record Memory : Type 0 where
  pub cells : ℕ → ℕ
  pub prod_ptr : ℕ
  pub cons_ptr : ℕ

-- What `main` leaves, in a segment with the contents `found`.
abbrev pub first : (ℕ → ℕ) → Memory
first found = record { cells = update found alfa b'a'; prod_ptr = alfa + 1; cons_ptr = alfa + 1 }

-- `producer` between its calls of semop, with the letter that it puts. `mapped` is the number of
-- bytes that the process may access from the start of the segment; `none` is an access behind them.
unfoldable pub put : ℕ → Section Memory
put mapped s =
    if ltb s.prod_ptr mapped
    then some (
      record s {
        cells =
            update (update s.cells s.prod_ptr (s.cells alfa)) alfa
              (if s.cells alfa == b'z' then b'a' else s.cells alfa + 1);
        prod_ptr = s.prod_ptr + 1;
      },
      s.cells alfa,
    )
    else none

unfoldable pub take : ℕ → Section Memory
take mapped s =
    if ltb s.cons_ptr mapped
    then some (record s { cons_ptr = s.cons_ptr + 1 }, s.cells s.cons_ptr)
    else none

abbrev pub binary : ℕ
binary = 0

abbrev pub bempty : ℕ
bempty = 1

abbrev pub bfull : ℕ
bfull = 2

abbrev pub p_prod : List Sembuf
p_prod = op bempty (negsuc 0) ∷ op binary (negsuc 0) ∷ []

abbrev pub v_prod : List Sembuf
v_prod = op binary (pos 1) ∷ op bfull (pos 1) ∷ []

abbrev pub p_cons : List Sembuf
p_cons = op bfull (negsuc 0) ∷ op binary (negsuc 0) ∷ []

abbrev pub v_cons : List Sembuf
v_cons = op binary (pos 1) ∷ op bempty (pos 1) ∷ []

-- The SETVAL calls of `main`.
abbrev pub set_up : Sems → Sems
set_up s = setval bfull 0 (setval bempty n_buf (setval binary 1 s))

abbrev pub arrays : Arrays
arrays = record {
  start_prod = p_prod;
  stop_prod = v_prod;
  start_cons = p_cons;
  stop_cons = v_cons;
  set_up = set_up;
}

-- A round of the loops, from the first call of semop on.
abbrev pub producer : ℕ → Mem Memory → Pc → Option (Mem Memory × Pc)
producer mapped m p_wait = call p_prod m p_in
producer mapped m p_in = body (put mapped) p_out m
producer mapped m (p_out c) = call v_prod m idle
producer mapped m _ = none

abbrev pub consumer : ℕ → Mem Memory → Pc → Option (Mem Memory × Pc)
consumer mapped m c_wait = call p_cons m c_in
consumer mapped m c_in = body (take mapped) c_out m
consumer mapped m (c_out c) = call v_cons m idle
consumer mapped m _ = none

abbrev pub view : Slots → Sems
view l = (if l.held then 0 else 1) ∷ l.free ∷ l.full ∷ []

set_up_view : (s : Sems) → length s ≡ 3 → set_up s ≡ 1 ∷ 10 ∷ 0 ∷ []
set_up_view (a ∷ b ∷ c ∷ []) h = refl
set_up_view _ h = absurd (omega arith)

-- The semaphores of the program are the free and the filled places of a buffer of 10 and a lock:
-- each call goes through exactly when a place and the lock are there to be taken, and `main` sets
-- the set up to that from any values.
pub pc-Implements : Implements n_buf arrays view
unfolding semop
pc-Implements = record {
  sets_up = set_up_view;
  starts_put = λ l. ground arith;
  starts_take = λ l. ground arith;
  stops_put = λ l h. ground arith;
  stops_take = λ l h. ground arith;
}

-- The cells behind `alfa` hold the letters of the first `a` rounds, of which `b` were taken.
pub record Holds (s : Memory) (a b : ℕ) : Type 0 where
  pub at_prod : s.prod_ptr ≡ alfa + 1 + a
  pub at_cons : s.cons_ptr ≡ alfa + 1 + b
  pub next_letter : s.cells alfa ≡ letter a
  pub items : (k : ℕ) → k < a → s.cells (alfa + 1 + k) ≡ letter k

-- While the segment reaches, a producer puts the next letter of the alphabet behind the others.
pub pc_producer_lem :
    (mapped : ℕ) (s : Memory) (a b : ℕ)
    → Holds s a b
    → alfa + 1 + a < mapped
    → (t : Memory) × (put mapped s ≡ some (t, letter a)) × Holds t (suc a) b
unfolding put ℕ_discrete
pc_producer_lem mapped s a b h room = (
  record s {
    cells =
        update (update s.cells s.prod_ptr (s.cells alfa)) alfa
          (if s.cells alfa == b'z' then b'a' else s.cells alfa + 1);
    prod_ptr = s.prod_ptr + 1;
  },
  ground (arith, h.at_prod, h.next_letter),
  record {
    at_prod = omega (arith, h.at_prod);
    at_cons = h.at_cons;
    next_letter = ground (arith, h.next_letter);
    items = λ k lt. elim (ℕ_discrete k a) [
      | yes new ↦ ground (arith, h.at_prod, h.next_letter)
      | no old ↦ ground (arith, h.at_prod, h.items k (omega arith))
    ];
  },
)

-- A consumer takes the oldest letter that was not taken.
pub pc_consumer_lem :
    (mapped : ℕ) (s : Memory) (a b : ℕ)
    → Holds s a b
    → b < a
    → alfa + 1 + a ≤ mapped
    → (t : Memory) × (take mapped s ≡ some (t, letter b)) × Holds t a (suc b)
unfolding take
pc_consumer_lem mapped s a b h item reach = (
  record s { cons_ptr = s.cons_ptr + 1 },
  ground (arith, h.at_cons, h.items b item),
  record {
    at_prod = h.at_prod;
    at_cons = omega (arith, h.at_cons);
    next_letter = h.next_letter;
    items = h.items;
  },
)

-- Once the letters fill what can be accessed, the next producer writes behind it, however many of
-- them were taken.
pub pc_producer_overruns :
    (mapped : ℕ) (s : Memory) (a b : ℕ) → Holds s a b → mapped ≤ alfa + 1 + a → put mapped s ≡ none
unfolding put
pc_producer_overruns mapped s a b h many = ground (arith, h.at_prod)
