-- ===== src/ProducerConsumer/RpcRing.antt =====
-- os_lab_rpc/pc/pc_server.c: a server whose threads put letters into a ring of 10 places and take
-- them out; a place that was taken from is overwritten by '-'.
pub mod Lines
pub mod Laws
pub mod Service
use os_5sem.Prelude.{
  ℕ, zero, suc, ◌+◌, ◌-◌, ◌%◌, ◌≤◌, ◌<◌, ◌≡◌, ◌≢◌, ◌⊎◌, refl, ◌∙◌, Bool, true, false, List, [], ◌∷◌,
  Option, none, some, ◌==◌, ltb, dec_lt, ℕ_discrete, if◌then◌else◌, length, get_elem?, set,
  length-set, get_elem?-set_self, get_elem?-set_ne, get_elem?-some, replicate, length-replicate,
  arith,
}
use os_5sem.Prelude.Int.{pos, negsuc}
use os_5sem.Posix.Semop.{Sems, Sembuf, op, semop, setval, done}
use os_5sem.ProducerConsumer.Slots.{Slots, Arrays, Implements}
use os_5sem.ProducerConsumer.Threads.{
  Pc, idle, p_wait, p_in, p_out, c_wait, c_in, c_out, Mem, call, Section, body, Code, behaviour,
  System, Reach, letter,
}
use os_5sem.ProducerConsumer.Counts.{IsRing, alphabet, inside}
use os_5sem.ProducerConsumer.Safety

abbrev pub size_buf : ℕ
size_buf = 10

abbrev pub binary : ℕ
binary = 0

abbrev pub bempty : ℕ
bempty = 1

abbrev pub bfull : ℕ
bfull = 2

abbrev pub start_prod : List Sembuf
start_prod = op bempty (negsuc 0) ∷ op binary (negsuc 0) ∷ []

abbrev pub stop_prod : List Sembuf
stop_prod = op binary (pos 1) ∷ op bfull (pos 1) ∷ []

abbrev pub start_cons : List Sembuf
start_cons = op bfull (negsuc 0) ∷ op binary (negsuc 0) ∷ []

abbrev pub stop_cons : List Sembuf
stop_cons = op binary (pos 1) ∷ op bempty (pos 1) ∷ []

-- The SETVAL calls of `init_sem`.
abbrev pub set_up : Sems → Sems
set_up s = setval bfull 0 (setval bempty size_buf (setval binary 1 s))

abbrev pub arrays : Arrays
arrays = record {
  start_prod = start_prod;
  stop_prod = stop_prod;
  start_cons = start_cons;
  stop_cons = stop_cons;
  set_up = set_up;
}

-- The buffer and the pointers into it, as offsets.
pub record Store : Type 0 where
  pub buffer : List ℕ
  pub prod_ptr : ℕ
  pub cons_ptr : ℕ
  pub alpha : ℕ

-- What `init_sem` leaves, with the initial value of `alpha`.
abbrev pub first : Store
first = record { buffer = replicate size_buf b'-'; prod_ptr = 0; cons_ptr = 0; alpha = b'a' }

-- *ptr = c
abbrev pub poke : List ℕ → ℕ → ℕ → Option (List ℕ)
poke buffer ptr c = if ltb ptr (length buffer) then some (set buffer ptr c) else none

-- ptr++; if (ptr == buffer + SIZE_BUF) ptr = buffer;
abbrev pub advance : ℕ → ℕ
advance ptr = if ptr + 1 == size_buf then 0 else ptr + 1

-- `producer_1_svc` between its two calls of semop, with its reply.
unfoldable pub put : Section Store
put s = elim (poke s.buffer s.prod_ptr s.alpha) [
  | none ↦ none
  | some buffer ↦ some (
    record {
      buffer = buffer;
      prod_ptr = advance s.prod_ptr;
      cons_ptr = s.cons_ptr;
      alpha = if s.alpha == b'z' then b'a' else s.alpha + 1;
    },
    s.alpha,
  )
]

-- `consumer_1_svc` between its two calls of semop, with its reply.
unfoldable pub take : Section Store
take s = elim (get_elem? s.buffer s.cons_ptr) [
  | none ↦ none
  | some c ↦ elim (poke s.buffer s.cons_ptr b'-') [
    | none ↦ none
    | some buffer ↦ some (record s { buffer = buffer; cons_ptr = advance s.cons_ptr }, c)
  ]
]

abbrev pub producer_1_svc : Mem Store → Pc → Option (Mem Store × Pc)
producer_1_svc m p_wait = call start_prod m p_in
producer_1_svc m p_in = body put p_out m
producer_1_svc m (p_out result) = call stop_prod m idle
producer_1_svc m _ = none

abbrev pub consumer_1_svc : Mem Store → Pc → Option (Mem Store × Pc)
consumer_1_svc m c_wait = call start_cons m c_in
consumer_1_svc m c_in = body take c_out m
consumer_1_svc m (c_out result) = call stop_cons m idle
consumer_1_svc m _ = none

abbrev pub code : Code Store
code m c = elim c [
  | p_wait ↦ producer_1_svc m p_wait
  | p_in ↦ producer_1_svc m p_in
  | p_out r ↦ producer_1_svc m (p_out r)
  | other ↦ consumer_1_svc m other
]

pub code-eq : (m : Mem Store) (c : Pc) → code m c ≡ behaviour arrays put take m c
code-eq m idle = refl
code-eq m _ = refl

abbrev pub view : Slots → Sems
view l = (if l.held then 0 else 1) ∷ l.free ∷ l.full ∷ []

set_up_view : (s : Sems) → length s ≡ 3 → set_up s ≡ 1 ∷ 10 ∷ 0 ∷ []
set_up_view (a ∷ b ∷ c ∷ []) h = refl
set_up_view _ h = absurd (omega arith)

pub rpc-Implements : Implements size_buf arrays view
unfolding semop
rpc-Implements = record {
  sets_up = set_up_view;
  starts_put = λ l. ground arith;
  starts_take = λ l. ground arith;
  stops_put = λ l h. ground arith;
  stops_take = λ l h. ground arith;
}
