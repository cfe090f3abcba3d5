-- ===== src/ProducerConsumer/RpcRing/Service.antt =====
-- os_lab_rpc/pc/pc_svc.c: the thread of a request, and the start and end of the server.
use os_5sem.Prelude.{
  ℕ, suc, ◌+◌, ◌-◌, ◌<◌, ◌≡◌, ◌≢◌, refl, Bool, true, false, List, [], ◌∷◌, ◌++◌, Option, none, some,
  if◌then◌else◌, length, not, arith,
}
use os_5sem.Posix.Semop.{Sems}
use os_5sem.Posix.Script.{
  Call, ftok, alloc, semget, sem_set, sem_rm, pmap_unset, svc_create, svc_register, svc_run, Host,
  effects, run, fresh, service, run-effects,
}
use os_5sem.Posix.Script.Leaks.{run-append, run-leaves}
use os_5sem.ProducerConsumer.Slots.{Slots, all_free}
use os_5sem.ProducerConsumer.Threads.{Mem, letter, p_wait, c_wait}
use os_5sem.ProducerConsumer.Alone.{
  Transport, null_reply, noproc, decode_error, replied, system_error, Served, answered, Proc,
  nullproc, producer, consumer, other, finish, with_reply, alone, alone-put, alone-take,
}
use os_5sem.ProducerConsumer.RpcRing.{
  size_buf, Store, view, put, take, code, code-eq, rpc-Implements,
}
use os_5sem.ProducerConsumer.RpcRing.Laws.{Holds, rpc-IsRing}

-- A request whose thread is not interrupted; its argument is decoded before. A call of semop that
-- waits has no result.
unfoldable pub serv_request : Proc → Transport → Mem Store → Option (Served Store)
serv_request nullproc t m = answered null_reply m
serv_request producer t m = finish (record t { frees = true }) (with_reply (alone code m p_wait))
serv_request consumer t m = finish (record t { frees = true }) (with_reply (alone code m c_wait))
serv_request other t m = answered noproc m

-- The argument is decoded whatever the procedure is.
abbrev pub pc_prog_1 : Proc → Transport → Mem Store → Option (Served Store)
pc_prog_1 proc t m = if not t.decodes then answered decode_error m else serv_request proc t m

abbrev pub init_sem : List Call
init_sem = ftok ∷ semget ∷ sem_set 0 1 ∷ sem_set 1 size_buf ∷ sem_set 2 0 ∷ alloc ∷ []

abbrev pub registers : List Call
registers = pmap_unset ∷ svc_create ∷ svc_register ∷ svc_create ∷ svc_register ∷ []

-- The result of `free_sem`, the last call, is not looked at: `main` exits with status 1 anyway.
abbrev pub main : (ℕ → Bool) → Sems → ℕ × Host
main ok found = service ok found ((init_sem ++ registers) ++ svc_run ∷ sem_rm ∷ [])

-- A request to put a letter, to a server with a free place and its lock open, gets the next letter of
-- the alphabet, which then stands behind the newest item of the ring; a free place has become filled.
pub rpc_serves_put :
    (t : Transport) (m : Mem Store) (l : Slots) (a b : ℕ)
    → t.decodes ≡ true
    → m.sems ≡ view l
    → l.held ≡ false
    → 0 < l.free
    → Holds m.store a b
    → a < size_buf + b
    → (s : Store) × (pc_prog_1 producer t m
        ≡ some (record {
          mem = record {
            sems = view (record { free = l.free - 1; full = l.full + 1; held = false });
            store = s;
          };
          answer = if t.sends then replied (letter a) else system_error;
          exits = false;
        }))
      × Holds s (suc a) b
unfolding serv_request
rpc_serves_put t m l a b decodes sems unlocked places h fits =
    let (s, ran, next) = rpc-IsRing.puts_next m.store a b h fits in
    (
      s,
      rw
          (
            decodes,
            alone-put put take rpc-Implements code code-eq m l s (letter a) sems unlocked places
                ran,
          )
          refl,
      next,
    )

-- A request to take a letter whose argument is decoded, and that no other thread interrupts, from a
-- server with a filled place and its lock open, gets the oldest item of the ring, if the reply can be
-- sent; a filled place has become free.
pub rpc_serves_take :
    (t : Transport) (m : Mem Store) (l : Slots) (a b : ℕ)
    → t.decodes ≡ true
    → m.sems ≡ view l
    → l.held ≡ false
    → 0 < l.full
    → Holds m.store a b
    → b < a
    → (s : Store) × (pc_prog_1 consumer t m
        ≡ some (record {
          mem = record {
            sems = view (record { free = l.free + 1; full = l.full - 1; held = false });
            store = s;
          };
          answer = if t.sends then replied (letter b) else system_error;
          exits = false;
        }))
      × Holds s a (suc b)
unfolding serv_request
rpc_serves_take t m l a b decodes sems unlocked places h fits =
    let (s, ran, next) = rpc-IsRing.takes_next m.store a b h fits in
    (
      s,
      rw
          (
            decodes,
            alone-take put take rpc-Implements code code-eq m l s (letter b) sems unlocked places
                ran,
          )
          refl,
      next,
    )

-- If a call between semget and svc_run fails, `main` exits and leaves the set of semaphores.
pub rpc_main_leaks :
    (ok : ℕ → Bool) (found : Sems)
    → ok 0 ≡ true
    → ok 1 ≡ true
    → (run ok found 0 (init_sem ++ registers) (fresh [])).0 ≢ 0
    → ((main ok found).0 ≡ 1) × ((main ok found).1.sems ≢ none)
unfolding service
rpc_main_leaks ok found key got bad = (
  refl,
  rw (run-append ok found 0 (init_sem ++ registers) (svc_run ∷ sem_rm ∷ []) (fresh []) bad) (
      run-leaves ok found 0 ftok
        (sem_set 0 1 ∷ sem_set 1 size_buf ∷ sem_set 2 0 ∷ alloc ∷ registers) (fresh []) key got
        refl),
)

-- If every call of `main` succeeds the semaphores are those of an empty ring when svc_run is called,
-- the service is registered twice, and the set is removed when svc_run has returned.
pub rpc_main_ends :
    (ok : ℕ → Bool) (found : Sems)
    → ((k : ℕ) → ok k ≡ true)
    → length found ≡ 3
    → ((effects found (init_sem ++ registers) (fresh [])).sems ≡ some (view (all_free size_buf)))
      × ((effects found (init_sem ++ registers) (fresh [])).registered ≡ 2)
      × ((main ok found).1.sems ≡ none)
unfolding service
rpc_main_ends ok (a ∷ b ∷ c ∷ []) all h = (
  refl,
  refl,
  rw
      (run-effects ok (a ∷ b ∷ c ∷ []) 0 ((init_sem ++ registers) ++ svc_run ∷ sem_rm ∷ [])
        (fresh []) all)
      refl,
)
rpc_main_ends ok _ all h = absurd (omega arith)
