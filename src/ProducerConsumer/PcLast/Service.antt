-- ===== src/ProducerConsumer/PcLast/Service.antt =====
-- os_lab_rpc/pc_last/pc_svc.c: the thread of a request, and the start of the server.
use os_5sem.Prelude.{
  ℕ, suc, ◌+◌, ◌-◌, ◌<◌, ◌≤◌, ◌≡◌, ◌≢◌, refl, Bool, true, false, List, [], ◌∷◌, ◌++◌, Option, none,
  some, if◌then◌else◌, not, arith, dec_lt, replicate, length-replicate,
}
use os_5sem.Posix.Semop.{Sems}
use os_5sem.Posix.Script.{
  Call, ftok, semget, sem_set, pmap_unset, svc_create, svc_register, svc_run, Host, fresh, service,
}
use os_5sem.Posix.Script.Leaks.{run-leaves, run-unset}
use os_5sem.ProducerConsumer.Slots.{Slots}
use os_5sem.ProducerConsumer.Threads.{Mem, letter, p_wait, c_wait}
use os_5sem.ProducerConsumer.Counts.{Counts, alphabet, IsWalk, outcome}
use os_5sem.ProducerConsumer.Alone.{
  Transport, null_reply, noproc, decode_error, silent, replied, system_error, Served, answered,
  finish, with_reply, alone, alone-put, alone-take,
}
use os_5sem.ProducerConsumer.Statements.{Running, Reaches}
use os_5sem.ProducerConsumer.Statements.Safety as ByLines
use os_5sem.ProducerConsumer.Statements.Relation.{seen}
use os_5sem.ProducerConsumer.PcLast.Lines.{lines, by_lines, lines-whole, by_lines-eq}
use os_5sem.ProducerConsumer.PcLast.{
  size_buf, arrays, Store, producer, consumer, code, code-eq, view, last-Implements, service_1_svc,
  Holds, last_producer_lem, last_consumer_lem, last_producer_overruns,
}

pub data Proc : Type 0 where
  nullproc service_proc other : Proc

-- A request whose thread is not interrupted. A call of semop that waits has no result.
unfoldable pub serv_request : Proc → Transport → Mem Store → Option (Served Store)
serv_request nullproc t m = answered null_reply m
serv_request service_proc t m =
    if not t.decodes then answered decode_error m else elim (service_1_svc true true t.arg) [
      | none ↦ finish t (some (none, m))
      | some c ↦ finish t (with_reply (alone code m c))
    ]
serv_request other t m = answered noproc m

abbrev pub after_semget : List Call
after_semget =
    sem_set 0 1
    ∷ sem_set 2 size_buf
    ∷ sem_set 1 0
    ∷ svc_create
    ∷ svc_register
    ∷ svc_create
    ∷ svc_register
    ∷ []

abbrev pub main : (ℕ → Bool) → Sems → ℕ × Host
main ok found = service ok found (pmap_unset ∷ ftok ∷ semget ∷ after_semget ++ svc_run ∷ [])

-- The buffer before the first request.
abbrev pub first : Store
first = record { buff = replicate size_buf 0; addr_prod = 0; addr_cons = 0; next = b'a' }

pub first-Holds : Holds first 0 0
first-Holds = record {
  size = length-replicate {A = ℕ} size_buf 0;
  at_prod = refl;
  at_cons = refl;
  next_letter = refl;
  items = λ k lt. absurd (omega arith);
}

last-IsWalk : IsWalk size_buf producer consumer first Holds
last-IsWalk = record {
  starts = first-Holds;
  puts_next = λ s t a b c h room e. elim (dec_lt a size_buf) [
    | yes inside ↦
        outcome (λ u. Holds u (suc a) b) (producer s) (letter a) t c
          (last_producer_lem s a b h inside) e
    | no many ↦ cc (e, last_producer_overruns s a b h (omega (arith, many)))
  ];
  takes_next = λ s t a b c h item e.
      outcome (λ u. Holds u a (suc b)) (consumer s) (letter b) t c (last_consumer_lem s a b h item)
        e;
}

-- However the statements of the threads of the server are interleaved, as long as no producer has left
-- the buffer: the letters that were put are those of the alphabet over and over, the letters that were
-- taken are the first of those in the same order, at most 4096 are put and not taken, and the
-- semaphores are a lock that is held exactly while a thread stands between its calls, the places that
-- are neither filled nor claimed, and the letters that are announced and not claimed.
pub last_fifo :
    {n : ℕ} {s : Running Store}
    → Reaches arrays first by_lines n s
    → (l : Slots) × (puts : ℕ) × (takes : ℕ) × (s.mem.sems ≡ view l)
      × (s.made ≡ alphabet puts)
      × (s.taken ≡ alphabet takes)
      × (takes ≤ puts)
      × (puts ≤ size_buf + takes)
      × Counts size_buf l puts takes n (λ i. seen (s.place i))
last_fifo q =
    let (l, puts, takes, sems, made, taken, counts) =
      ByLines.counted lines by_lines last-Implements last-IsWalk lines-whole by_lines-eq q in
    (
      l,
      puts,
      takes,
      sems,
      made,
      taken,
      omega (arith, counts.fulls),
      omega (arith, counts.frees),
      counts,
    )

service_1_svc_other : (n : ℕ) → 1 < n → service_1_svc true true n ≡ none
unfolding service_1_svc
service_1_svc_other n h = ground arith

service_1_svc_put : service_1_svc true true 0 ≡ some p_wait
unfolding service_1_svc
service_1_svc_put = refl

service_1_svc_take : service_1_svc true true 1 ≡ some c_wait
unfolding service_1_svc
service_1_svc_take = refl

-- A request with the argument 0, to a server with a free place, its lock open, and fewer than 4096
-- letters put in all, gets the next letter of the alphabet, which then stands in the buffer.
pub last_serves_put :
    (t : Transport) (m : Mem Store) (l : Slots) (a b : ℕ)
    → t.decodes ≡ true
    → t.arg ≡ 0
    → m.sems ≡ view l
    → l.held ≡ false
    → 0 < l.free
    → Holds m.store a b
    → a < size_buf
    → (s : Store) × (serv_request service_proc t m
        ≡ some (record {
          mem = record {
            sems = view (record { free = l.free - 1; full = l.full + 1; held = false });
            store = s;
          };
          answer = if t.sends then replied (letter a) else system_error;
          exits = not t.frees;
        }))
      × Holds s (suc a) b
unfolding serv_request
last_serves_put t m l a b decodes asks sems unlocked places h fits =
    let (s, ran, next) = last_producer_lem m.store a b h fits in
    (
      s,
      rw
          (
            decodes,
            asks,
            service_1_svc_put,
            alone-put producer consumer last-Implements code code-eq m l s (letter a) sems unlocked
                places ran,
          )
          refl,
      next,
    )

-- A request with the argument 1, to a server with a filled place and its lock open, gets the oldest
-- letter that was not taken.
pub last_serves_take :
    (t : Transport) (m : Mem Store) (l : Slots) (a b : ℕ)
    → t.decodes ≡ true
    → t.arg ≡ 1
    → m.sems ≡ view l
    → l.held ≡ false
    → 0 < l.full
    → Holds m.store a b
    → b < a
    → (s : Store) × (serv_request service_proc t m
        ≡ some (record {
          mem = record {
            sems = view (record { free = l.free + 1; full = l.full - 1; held = false });
            store = s;
          };
          answer = if t.sends then replied (letter b) else system_error;
          exits = not t.frees;
        }))
      × Holds s a (suc b)
unfolding serv_request
last_serves_take t m l a b decodes asks sems unlocked places h fits =
    let (s, ran, next) = last_consumer_lem m.store a b h fits in
    (
      s,
      rw
          (
            decodes,
            asks,
            service_1_svc_take,
            alone-take producer consumer last-Implements code code-eq m l s (letter b) sems unlocked
                places ran,
          )
          refl,
      next,
    )

-- A request with any other argument is never answered, and changes nothing.
pub last_silent :
    (t : Transport) (m : Mem Store)
    → t.decodes ≡ true
    → 1 < t.arg
    → serv_request service_proc t m
      ≡ some (record { mem = m; answer = silent; exits = not t.frees })
unfolding serv_request
last_silent t m decodes many = ground (arith, service_1_svc_other t.arg many)

-- Once ftok and semget have gone through, `main` ends with status 1 and leaves the set of semaphores,
-- whichever later calls fail, and also if none does.
pub last_main_leaks :
    (ok : ℕ → Bool) (found : Sems)
    → ok 1 ≡ true
    → ok 2 ≡ true
    → ((main ok found).0 ≡ 1) × ((main ok found).1.sems ≢ none)
unfolding service
last_main_leaks ok found key got = (
  refl,
  rw (run-unset ok found 0 (ftok ∷ semget ∷ after_semget ++ svc_run ∷ []) (fresh []))
      (run-leaves ok found 1 ftok (after_semget ++ svc_run ∷ []) (fresh []) key got refl),
)
