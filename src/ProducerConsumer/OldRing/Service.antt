-- ===== src/ProducerConsumer/OldRing/Service.antt =====
-- os_lab_rpc/pc_old/pc_svc.c: the thread of a request, and the start and end of the server.
use os_5sem.Prelude.{
  ℕ, suc, ◌+◌, ◌-◌, ◌<◌, ◌≡◌, ◌≢◌, refl, Bool, true, false, List, [], ◌∷◌, ◌++◌, Option, none, some,
  if◌then◌else◌, length, not, arith,
}
use os_5sem.Posix.Semop.{Sems}
use os_5sem.Posix.Script.{
  Call, alloc, semget, sem_set, pmap_unset, svc_create, svc_register, svc_run, Host, effects, fresh,
  service,
}
use os_5sem.Posix.Script.Leaks.{run-leaves}
use os_5sem.ProducerConsumer.Slots.{Slots, all_free}
use os_5sem.ProducerConsumer.Threads.{Mem, letter, p_wait, c_wait}
use os_5sem.ProducerConsumer.Alone.{
  Transport, null_reply, noproc, decode_error, replied, system_error, Served, answered, Proc,
  nullproc, producer, consumer, other, finish, with_reply, alone, alone-put, alone-take,
}
use os_5sem.ProducerConsumer.OldRing.{
  size_buf, Store, view, put, take, code, code-eq, old-Implements,
}
use os_5sem.ProducerConsumer.OldRing.Laws.{Holds, put-Holds, take-Holds}

-- A request whose thread is not interrupted. A call of semop that waits has no result.
unfoldable pub serv_request : Proc → Transport → Mem Store → Option (Served Store)
serv_request nullproc t m = answered null_reply m
serv_request producer t m =
    if not t.decodes then answered decode_error m else finish t (with_reply (alone code m p_wait))
serv_request consumer t m =
    if not t.decodes then answered decode_error m else finish t (with_reply (alone code m c_wait))
serv_request other t m = answered noproc m

abbrev pub pc_init : List Call
pc_init = alloc ∷ semget ∷ sem_set 0 1 ∷ sem_set 1 size_buf ∷ sem_set 2 0 ∷ []

abbrev pub registers : List Call
registers = pmap_unset ∷ svc_create ∷ svc_register ∷ svc_create ∷ svc_register ∷ []

abbrev pub main : (ℕ → Bool) → Sems → ℕ × Host
main ok found = service ok found (pc_init ++ registers ++ svc_run ∷ [])

-- A request to put a letter, to a server with a free place and its lock open, gets the next letter of
-- the alphabet, which then stands behind the newest item of the ring; a free place has become filled.
pub old_serves_put :
    (t : Transport) (m : Mem Store) (l : Slots) (a b : ℕ)
    → t.decodes ≡ true
    → m.sems ≡ view l
    → l.held ≡ false
    → 0 < l.free
    → Holds m.store a b
    → a < size_buf + b
    → (s : Store) × (serv_request producer t m
        ≡ some (record {
          mem = record {
            sems = view (record { free = l.free - 1; full = l.full + 1; held = false });
            store = s;
          };
          answer = if t.sends then replied (letter a) else system_error;
          exits = not t.frees;
        }))
      × Holds s (suc a) b
unfolding serv_request
old_serves_put t m l a b decodes sems unlocked places h fits =
    let (s, ran, next) = put-Holds m.store a b h fits in
    (
      s,
      rw
          (
            decodes,
            alone-put put take old-Implements code code-eq m l s (letter a) sems unlocked places
                ran,
          )
          refl,
      next,
    )

-- A request to take a letter, from a server with a filled place and its lock open, gets the oldest
-- item of the ring; a filled place has become free.
pub old_serves_take :
    (t : Transport) (m : Mem Store) (l : Slots) (a b : ℕ)
    → t.decodes ≡ true
    → m.sems ≡ view l
    → l.held ≡ false
    → 0 < l.full
    → Holds m.store a b
    → b < a
    → (s : Store) × (serv_request consumer t m
        ≡ some (record {
          mem = record {
            sems = view (record { free = l.free + 1; full = l.full - 1; held = false });
            store = s;
          };
          answer = if t.sends then replied (letter b) else system_error;
          exits = not t.frees;
        }))
      × Holds s a (suc b)
unfolding serv_request
old_serves_take t m l a b decodes sems unlocked places h fits =
    let (s, ran, next) = take-Holds m.store a b h fits in
    (
      s,
      rw
          (
            decodes,
            alone-take put take old-Implements code code-eq m l s (letter b) sems unlocked places
                ran,
          )
          refl,
      next,
    )

-- Once malloc and semget have gone through, `main` ends with status 1 and leaves the set of
-- semaphores, whichever later calls fail, and also if none does.
pub old_main_leaks :
    (ok : ℕ → Bool) (found : Sems)
    → ok 0 ≡ true
    → ok 1 ≡ true
    → ((main ok found).0 ≡ 1) × ((main ok found).1.sems ≢ none)
unfolding service
old_main_leaks ok found key got = (
  refl,
  run-leaves ok found 0 alloc
      (sem_set 0 1 ∷ sem_set 1 size_buf ∷ sem_set 2 0 ∷ registers ++ svc_run ∷ []) (fresh []) key
      got refl,
)

-- If every call of `main` succeeds the semaphores are those of an empty ring when svc_run is called,
-- and the service is registered twice.
pub old_main_sets_up :
    (found : Sems)
    → length found ≡ 3
    → ((effects found (pc_init ++ registers) (fresh [])).sems ≡ some (view (all_free size_buf)))
      × ((effects found (pc_init ++ registers) (fresh [])).registered ≡ 2)
old_main_sets_up (a ∷ b ∷ c ∷ []) h = (refl, refl)
old_main_sets_up _ h = absurd (omega arith)
