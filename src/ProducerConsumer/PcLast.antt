-- ===== src/ProducerConsumer/PcLast.antt =====
-- os_lab_rpc/pc_last/pc_server.c: a server whose producers and consumers walk through a buffer of
-- 4096 places once, and do not come back to its start.
pub mod Lines
pub mod Service
use os_5sem.Prelude.{
  refl, ◌∷◌, [], ℕ, suc, ◌+◌, ◌≤◌, ◌<◌, ◌≡◌, ◌∙◌, Bool, List, Option, none, some, ◌==◌, ltb, not,
  if◌then◌else◌, length, get_elem?, set, length-set, get_elem?-set_self, get_elem?-set_ne, arith,
  ℕ_discrete,
}
use os_5sem.Prelude.Int.{pos, negsuc}
use os_5sem.Posix.Semop.{Sems, Sembuf, op, semop, setval}
use os_5sem.ProducerConsumer.Slots.{Slots, Arrays, Implements}
use os_5sem.ProducerConsumer.Threads.{
  Pc, idle, p_wait, p_in, p_out, c_wait, c_in, c_out, Mem, call, Section, body, Code, behaviour,
  letter,
}

abbrev pub size_buf : ℕ
size_buf = 4096

-- `buff`, the offsets `addr_prod` and `addr_cons`, and `letter`
pub record Store : Type 0 where
  pub buff : List ℕ
  pub addr_prod : ℕ
  pub addr_cons : ℕ
  pub next : ℕ

-- `producer` between its two calls of semop, with its reply; `none` for a write past the buffer.
unfoldable pub producer : Section Store
producer s =
    if ltb s.addr_prod (length s.buff)
    then some (
      record {
        buff = set s.buff s.addr_prod s.next;
        addr_prod = s.addr_prod + 1;
        addr_cons = s.addr_cons;
        next = if s.next == b'z' then b'a' else s.next + 1;
      },
      s.next,
    )
    else none

-- `consumer` between its two calls of semop.
unfoldable pub consumer : Section Store
consumer s = elim (get_elem? s.buff s.addr_cons) [
  | none ↦ none
  | some consumed ↦ some (record s { addr_cons = s.addr_cons + 1 }, consumed)
]

abbrev pub bin_sem : ℕ
bin_sem = 0

abbrev pub buff_full : ℕ
buff_full = 1

abbrev pub buff_empty : ℕ
buff_empty = 2

abbrev pub start_produce : List Sembuf
start_produce = op buff_empty (negsuc 0) ∷ op bin_sem (negsuc 0) ∷ []

abbrev pub stop_produce : List Sembuf
stop_produce = op bin_sem (pos 1) ∷ op buff_full (pos 1) ∷ []

abbrev pub start_consume : List Sembuf
start_consume = op buff_full (negsuc 0) ∷ op bin_sem (negsuc 0) ∷ []

abbrev pub stop_consume : List Sembuf
stop_consume = op bin_sem (pos 1) ∷ op buff_empty (pos 1) ∷ []

-- The SETVAL calls of `main` of pc_svc.c.
abbrev pub set_up : Sems → Sems
set_up s = setval buff_full 0 (setval buff_empty size_buf (setval bin_sem 1 s))

abbrev pub arrays : Arrays
arrays = record {
  start_prod = start_produce;
  stop_prod = stop_produce;
  start_cons = start_consume;
  stop_cons = stop_consume;
  set_up = set_up;
}

-- `producer` and `consumer` with their calls of semop.
abbrev pub produce_request : Mem Store → Pc → Option (Mem Store × Pc)
produce_request m p_wait = call start_produce m p_in
produce_request m p_in = body producer p_out m
produce_request m (p_out c) = call stop_produce m idle
produce_request m _ = none

abbrev pub consume_request : Mem Store → Pc → Option (Mem Store × Pc)
consume_request m c_wait = call start_consume m c_in
consume_request m c_in = body consumer c_out m
consume_request m (c_out c) = call stop_consume m idle
consume_request m _ = none

abbrev pub code : Code Store
code m c = elim c [
  | p_wait ↦ produce_request m p_wait
  | p_in ↦ produce_request m p_in
  | p_out r ↦ produce_request m (p_out r)
  | other ↦ consume_request m other
]

pub code-eq : (m : Mem Store) (c : Pc) → code m c ≡ behaviour arrays producer consumer m c
code-eq m idle = refl
code-eq m _ = refl

abbrev pub view : Slots → Sems
view l = (if l.held then 0 else 1) ∷ l.full ∷ l.free ∷ []

set_up_view : (s : Sems) → length s ≡ 3 → set_up s ≡ 1 ∷ 0 ∷ 4096 ∷ []
set_up_view (a ∷ b ∷ c ∷ []) h = refl
set_up_view _ h = absurd (omega arith)

-- The semaphores of the program are the free and the filled places of a buffer of 4096 and a lock:
-- each call goes through exactly when a place and the lock are there to be taken, and `main` of pc_svc.c sets
-- the set up to that from any values.
pub last-Implements : Implements size_buf arrays view
unfolding semop
last-Implements = record {
  sets_up = set_up_view;
  starts_put = λ l. ground arith;
  starts_take = λ l. ground arith;
  stops_put = λ l h. ground arith;
  stops_take = λ l h. ground arith;
}

-- `service_1_svc`: the procedure that a request calls; `none` if it returns 0.
pub service_1_svc : Bool → Bool → ℕ → Option Pc
service_1_svc argp result arg =
    if not argp
    then none
    else if not result
    then none
    else if arg == 0
    then some p_wait
    else if arg == 1
    then some c_wait
    else none

-- The first `a` places hold the first letters of the alphabet.
pub record Holds (s : Store) (a b : ℕ) : Type 0 where
  pub size : length s.buff ≡ size_buf
  pub at_prod : s.addr_prod ≡ a
  pub at_cons : s.addr_cons ≡ b
  pub next_letter : s.next ≡ letter a
  pub items : (k : ℕ) → k < a → get_elem? s.buff k ≡ some (letter k)

-- While fewer than 4096 letters were put in all, a producer puts the next letter of the alphabet.
pub last_producer_lem :
    (s : Store) (a b : ℕ)
    → Holds s a b
    → a < size_buf
    → (t : Store) × (producer s ≡ some (t, letter a)) × Holds t (suc a) b
unfolding producer
last_producer_lem s a b h room = (
  record {
    buff = set s.buff s.addr_prod s.next;
    addr_prod = s.addr_prod + 1;
    addr_cons = s.addr_cons;
    next = if s.next == b'z' then b'a' else s.next + 1;
  },
  ground (arith, h.size, h.at_prod, h.next_letter),
  record {
    size = length-set s.buff s.addr_prod s.next ∙ h.size;
    at_prod = omega (arith, h.at_prod);
    at_cons = h.at_cons;
    next_letter = ground (arith, h.next_letter);
    items = λ k lt. elim (ℕ_discrete k a) [
      | yes new ↦
          ground
            (arith, h.size, h.at_prod, h.next_letter, get_elem?-set_self s.buff s.addr_prod s.next)
      | no old ↦ get_elem?-set_ne s.buff s.next (omega (arith, h.at_prod)) ∙ h.items k (omega arith)
    ];
  },
)

-- A consumer takes the oldest letter that was not taken.
pub last_consumer_lem :
    (s : Store) (a b : ℕ)
    → Holds s a b
    → b < a
    → (t : Store) × (consumer s ≡ some (t, letter b)) × Holds t a (suc b)
unfolding consumer
last_consumer_lem s a b h item = (
  record s { addr_cons = s.addr_cons + 1 },
  ground (arith, h.at_cons, h.items b item),
  record {
    size = h.size;
    at_prod = h.at_prod;
    at_cons = omega (arith, h.at_cons);
    next_letter = h.next_letter;
    items = h.items;
  },
)

-- Once 4096 letters were put in all, the next producer writes past the buffer, however many of them
-- were taken.
pub last_producer_overruns : (s : Store) (a b : ℕ) → Holds s a b → size_buf ≤ a → producer s ≡ none
unfolding producer
last_producer_overruns s a b h many = ground (arith, h.size, h.at_prod)
