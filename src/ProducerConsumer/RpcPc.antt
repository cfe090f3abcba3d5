-- ===== src/ProducerConsumer/RpcPc.antt =====
-- os_lab_rpc/rpc_pc/pc_server.c and pc_svc.c: a server that calls its semaphores in the thread of a
-- request, around procedures that walk through a buffer of 1024 places.
pub mod Laws
use os_5sem.Prelude.{
  ℕ, ◌+◌, ◌≡◌, refl, Bool, List, [], ◌∷◌, ◌++◌, Option, none, some, ◌==◌, ltb, not, if◌then◌else◌,
  length, get_elem?, set, arith,
}
use os_5sem.Prelude.Int.{pos, negsuc}
use os_5sem.Posix.Semop.{Sems, Sembuf, op, semop, setval}
use os_5sem.Posix.Script.{
  Call, semget, sem_set, pmap_unset, svc_create, svc_register, svc_run, Host, service,
}
use os_5sem.ProducerConsumer.Slots.{Slots, Arrays, Implements}
use os_5sem.ProducerConsumer.Threads.{
  Pc, idle, p_wait, p_in, p_out, c_wait, c_in, c_out, Mem, call, Section, body, Code, behaviour,
}
use os_5sem.ProducerConsumer.Straight.{Store}
use os_5sem.ProducerConsumer.Alone.{
  Transport, null_reply, noproc, decode_error, Served, answered, finish, with_reply, Proc, nullproc,
  producer, consumer, other, alone,
}

abbrev pub buff_size : ℕ
buff_size = 1024

abbrev pub sb : ℕ
sb = 0

abbrev pub se : ℕ
se = 1

abbrev pub sf : ℕ
sf = 2

abbrev pub start_produce : List Sembuf
start_produce = op se (negsuc 0) ∷ op sb (negsuc 0) ∷ []

abbrev pub stop_produce : List Sembuf
stop_produce = op sb (pos 1) ∷ op sf (pos 1) ∷ []

abbrev pub start_consume : List Sembuf
start_consume = op sf (negsuc 0) ∷ op sb (negsuc 0) ∷ []

abbrev pub stop_consume : List Sembuf
stop_consume = op sb (pos 1) ∷ op se (pos 1) ∷ []

-- The SETVAL calls of `main`.
abbrev pub set_up : Sems → Sems
set_up s = setval sf 0 (setval se buff_size (setval sb 1 s))

abbrev pub arrays : Arrays
arrays = record {
  start_prod = start_produce;
  stop_prod = stop_produce;
  start_cons = start_consume;
  stop_cons = stop_consume;
  set_up = set_up;
}

-- With the letter that is replied; `none` for a write past the buffer.
unfoldable pub produce_1_svc : Section Store
produce_1_svc s =
    if ltb s.prod_ptr (length s.buffer)
    then some (
      record {
        buffer = set s.buffer s.prod_ptr s.alpha;
        prod_ptr = s.prod_ptr + 1;
        cons_ptr = s.cons_ptr;
        alpha = if ltb s.alpha b'z' then s.alpha + 1 else b'a';
      },
      s.alpha,
    )
    else none

unfoldable pub consume_1_svc : Section Store
consume_1_svc s = elim (get_elem? s.buffer s.cons_ptr) [
  | none ↦ none
  | some c ↦ some (record s { cons_ptr = s.cons_ptr + 1 }, c)
]

-- The part of `serv_request` that calls semop, step by step.
abbrev pub code : Code Store
code m idle = none
code m p_wait = call start_produce m p_in
code m p_in = body produce_1_svc p_out m
code m (p_out result) = call stop_produce m idle
code m c_wait = call start_consume m c_in
code m c_in = body consume_1_svc c_out m
code m (c_out result) = call stop_consume m idle

-- A request whose thread is not interrupted. A call of semop that waits has no result.
unfoldable pub serv_request : Proc → Transport → Mem Store → Option (Served Store)
serv_request nullproc t m = answered null_reply m
serv_request producer t m =
    if not t.decodes then answered decode_error m else finish t (with_reply (alone code m p_wait))
serv_request consumer t m =
    if not t.decodes then answered decode_error m else finish t (with_reply (alone code m c_wait))
serv_request other t m = answered noproc m

abbrev pub after_semget : List Call
after_semget =
    sem_set sb 1
    ∷ sem_set se buff_size
    ∷ sem_set sf 0
    ∷ pmap_unset
    ∷ svc_create
    ∷ svc_register
    ∷ svc_create
    ∷ svc_register
    ∷ []

-- `main` up to svc_run.
abbrev pub before_run : List Call
before_run = semget ∷ after_semget

abbrev pub main : (ℕ → Bool) → Sems → ℕ × Host
main ok found = service ok found (before_run ++ svc_run ∷ [])

pub code-eq : (m : Mem Store) (c : Pc) → code m c ≡ behaviour arrays produce_1_svc consume_1_svc m c
code-eq m idle = refl
code-eq m _ = refl

abbrev pub view : Slots → Sems
view l = (if l.held then 0 else 1) ∷ l.free ∷ l.full ∷ []

set_up_view : (s : Sems) → length s ≡ 3 → set_up s ≡ 1 ∷ 1024 ∷ 0 ∷ []
set_up_view (a ∷ b ∷ c ∷ []) h = refl
set_up_view _ h = absurd (omega arith)

pub rpc_pc-Implements : Implements buff_size arrays view
unfolding semop
rpc_pc-Implements = record {
  sets_up = set_up_view;
  starts_put = λ l. ground arith;
  starts_take = λ l. ground arith;
  stops_put = λ l h. ground arith;
  stops_take = λ l h. ground arith;
}
