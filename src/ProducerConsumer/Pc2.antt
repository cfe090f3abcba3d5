-- ===== src/ProducerConsumer/Pc2.antt =====
-- os_lab_rpc/pc2/pc_server.c and pc_svc.c: a server that calls its semaphores in the thread of a
-- request, around procedures that walk through a buffer of 1000 places.
pub mod Lines
pub mod Laws
use os_5sem.Prelude.{
  ℕ, ◌+◌, ◌≡◌, refl, Bool, List, [], ◌∷◌, ◌++◌, Option, none, some, ◌==◌, ltb, not, if◌then◌else◌,
  length, get_elem?, set, arith,
}
use os_5sem.Prelude.Int.{pos, negsuc}
use os_5sem.Posix.Semop.{Sems, Sembuf, op, semop, setval}
use os_5sem.Posix.Script.{
  Call, ftok, semget, sem_set, sem_rm, pmap_unset, svc_create, svc_register, svc_run, Host, service,
}
use os_5sem.ProducerConsumer.Slots.{Slots, Arrays, Implements}
use os_5sem.ProducerConsumer.Threads.{
  Pc, idle, p_wait, p_in, p_out, c_wait, c_in, c_out, Mem, call, Section, body, Code, behaviour,
}
use os_5sem.ProducerConsumer.Straight.{Store}
use os_5sem.ProducerConsumer.Alone.{
  Transport, null_reply, noproc, decode_error, Served, answered, finish, with_reply, Proc, nullproc,
  producer, consumer, other, alone,
}

abbrev pub size_buf : ℕ
size_buf = 1000

abbrev pub binary : ℕ
binary = 0

abbrev pub bempty : ℕ
bempty = 1

abbrev pub bfull : ℕ
bfull = 2

abbrev pub start_prod : List Sembuf
start_prod = op bempty (negsuc 0) ∷ op binary (negsuc 0) ∷ []

abbrev pub stop_prod : List Sembuf
stop_prod = op binary (pos 1) ∷ op bfull (pos 1) ∷ []

abbrev pub start_cons : List Sembuf
start_cons = op bfull (negsuc 0) ∷ op binary (negsuc 0) ∷ []

abbrev pub stop_cons : List Sembuf
stop_cons = op binary (pos 1) ∷ op bempty (pos 1) ∷ []

-- The SETVAL calls of `main`.
abbrev pub set_up : Sems → Sems
set_up s = setval bfull 0 (setval bempty size_buf (setval binary 1 s))

abbrev pub arrays : Arrays
arrays = record {
  start_prod = start_prod;
  stop_prod = stop_prod;
  start_cons = start_cons;
  stop_cons = stop_cons;
  set_up = set_up;
}

-- With the letter that is replied; `none` for a write past the buffer.
unfoldable pub producer_1_svc : Section Store
producer_1_svc s =
    if ltb s.prod_ptr (length s.buffer)
    then some (
      record {
        buffer = set s.buffer s.prod_ptr s.alpha;
        prod_ptr = s.prod_ptr + 1;
        cons_ptr = s.cons_ptr;
        alpha = if s.alpha == b'z' then b'a' else s.alpha + 1;
      },
      s.alpha,
    )
    else none

unfoldable pub consumer_1_svc : Section Store
consumer_1_svc s = elim (get_elem? s.buffer s.cons_ptr) [
  | none ↦ none
  | some c ↦ some (record s { cons_ptr = s.cons_ptr + 1 }, c)
]

-- The part of `serv_request` that calls semop, step by step.
abbrev pub code : Code Store
code m idle = none
code m p_wait = call start_prod m p_in
code m p_in = body producer_1_svc p_out m
code m (p_out result) = call stop_prod m idle
code m c_wait = call start_cons m c_in
code m c_in = body consumer_1_svc c_out m
code m (c_out result) = call stop_cons m idle

-- A request whose thread is not interrupted. A call of semop that waits has no result.
unfoldable pub serv_request : Proc → Transport → Mem Store → Option (Served Store)
serv_request nullproc t m = answered null_reply m
serv_request producer t m =
    if not t.decodes then answered decode_error m else finish t (with_reply (alone code m p_wait))
serv_request consumer t m =
    if not t.decodes then answered decode_error m else finish t (with_reply (alone code m c_wait))
serv_request other t m = answered noproc m

abbrev pub after_semget : List Call
after_semget =
    sem_set binary 1
    ∷ sem_set bempty size_buf
    ∷ sem_set bfull 0
    ∷ pmap_unset
    ∷ svc_create
    ∷ svc_register
    ∷ svc_create
    ∷ svc_register
    ∷ []

-- `main` up to svc_run.
abbrev pub before_run : List Call
before_run = ftok ∷ semget ∷ after_semget

abbrev pub main : (ℕ → Bool) → Sems → ℕ × Host
main ok found = service ok found (before_run ++ svc_run ∷ sem_rm ∷ [])

pub code-eq :
    (m : Mem Store) (c : Pc) → code m c ≡ behaviour arrays producer_1_svc consumer_1_svc m c
code-eq m idle = refl
code-eq m _ = refl

abbrev pub view : Slots → Sems
view l = (if l.held then 0 else 1) ∷ l.free ∷ l.full ∷ []

set_up_view : (s : Sems) → length s ≡ 3 → set_up s ≡ 1 ∷ 1000 ∷ 0 ∷ []
set_up_view (a ∷ b ∷ c ∷ []) h = refl
set_up_view _ h = absurd (omega arith)

pub pc2-Implements : Implements size_buf arrays view
unfolding semop
pc2-Implements = record {
  sets_up = set_up_view;
  starts_put = λ l. ground arith;
  starts_take = λ l. ground arith;
  stops_put = λ l h. ground arith;
  stops_take = λ l h. ground arith;
}
