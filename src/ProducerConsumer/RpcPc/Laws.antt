-- ===== src/ProducerConsumer/RpcPc/Laws.antt =====
-- os_lab_rpc/rpc_pc: what its server promises, and where it breaks.
use os_5sem.Prelude.{
  ◌++◌, ℕ, suc, ◌+◌, ◌-◌, ◌<◌, ◌≤◌, ◌≡◌, ◌≢◌, refl, sym, ◌∙◌, Bool, true, false, [], ◌∷◌, none,
  some, if◌then◌else◌, length, not, arith,
}
use os_5sem.Posix.Semop.{Sems}
use os_5sem.Posix.Script.{svc_run, effects, fresh, service, semget, effect}
use os_5sem.Posix.Script.Leaks.{run-keeps, run-passes}
use os_5sem.ProducerConsumer.Slots.{Slots, all_free}
use os_5sem.ProducerConsumer.Threads.{Mem, System, Reach, letter}
use os_5sem.ProducerConsumer.Counts.{alphabet, IsWalk}
use os_5sem.ProducerConsumer.Straight.{
  Store, first, put, take, Holds, put_lem, take_lem, overruns, straight-IsWalk,
}
use os_5sem.ProducerConsumer.Alone.{
  Transport, replied, system_error, producer, consumer, alone-put, alone-take,
}
use os_5sem.ProducerConsumer.Safety
use os_5sem.ProducerConsumer.RpcPc.{
  buff_size, arrays, produce_1_svc, consume_1_svc, code, code-eq, view, rpc_pc-Implements,
  serv_request, before_run, after_semget, main,
}

-- The next letter is the same as that of a test for 'z', while the letters are those of the alphabet.
produce_1_svc-eq : (s : Store) (a b : ℕ) → Holds buff_size s a b → produce_1_svc s ≡ put s
unfolding produce_1_svc put
produce_1_svc-eq s a b h = ground (arith, h.next_letter)

consume_1_svc-eq : (s : Store) → consume_1_svc s ≡ take s
unfolding consume_1_svc take
consume_1_svc-eq s = refl

rpc_pc-IsWalk : IsWalk buff_size produce_1_svc consume_1_svc (first buff_size) (Holds buff_size)
rpc_pc-IsWalk =
    let walk = straight-IsWalk buff_size in
    record {
      starts = walk.starts;
      puts_next = λ s t a b c h room e.
          walk.puts_next s t a b c h room (sym (produce_1_svc-eq s a b h) ∙ e);
      takes_next =
          λ s t a b c h item e. walk.takes_next s t a b c h item (sym (consume_1_svc-eq s) ∙ e);
    }

-- However the threads of the server are interleaved, as long as no producer has left the buffer: the
-- letters that were put are those of the alphabet over and over, the letters that were taken are the
-- first of those in the same order, and at most 1024 are put and not taken.
pub rpc_pc_fifo :
    {n : ℕ} {s : System Store}
    → Reach arrays (first buff_size) code n s
    → (puts : ℕ) × (takes : ℕ) × (s.made ≡ alphabet puts)
      × (s.taken ≡ alphabet takes)
      × (takes ≤ puts)
      × (puts ≤ buff_size + takes)
rpc_pc_fifo = Safety.fifo rpc_pc-Implements rpc_pc-IsWalk code-eq

-- A request to put a letter while a place is free, the lock is open, and fewer than 1024 letters were
-- put: the next letter of the alphabet stands in the buffer and in the reply, and the counts of the
-- places have moved by one.
pub rpc_pc_serves_put :
    (t : Transport) (m : Mem Store) (l : Slots) (a b : ℕ)
    → t.decodes ≡ true
    → m.sems ≡ view l
    → l.held ≡ false
    → 0 < l.free
    → Holds buff_size m.store a b
    → a < buff_size
    → (s : Store) × (serv_request producer t m
        ≡ some (record {
          mem = record {
            sems = view (record { free = l.free - 1; full = l.full + 1; held = false });
            store = s;
          };
          answer = if t.sends then replied (letter a) else system_error;
          exits = not t.frees;
        }))
      × Holds buff_size s (suc a) b
unfolding serv_request
rpc_pc_serves_put t m l a b decodes sems unlocked room h inside =
    let (s, ran, next) = put_lem buff_size m.store a b h inside in
    (
      s,
      rw
          (
            decodes,
            alone-put produce_1_svc consume_1_svc rpc_pc-Implements code code-eq m l s (letter a)
                sems unlocked room (produce_1_svc-eq m.store a b h ∙ ran),
          )
          refl,
      next,
    )

-- A request to take a letter while a place is filled and the lock is open gets the oldest letter that
-- was not taken.
pub rpc_pc_serves_take :
    (t : Transport) (m : Mem Store) (l : Slots) (a b : ℕ)
    → t.decodes ≡ true
    → m.sems ≡ view l
    → l.held ≡ false
    → 0 < l.full
    → Holds buff_size m.store a b
    → b < a
    → (s : Store) × (serv_request consumer t m
        ≡ some (record {
          mem = record {
            sems = view (record { free = l.free + 1; full = l.full - 1; held = false });
            store = s;
          };
          answer = if t.sends then replied (letter b) else system_error;
          exits = not t.frees;
        }))
      × Holds buff_size s a (suc b)
unfolding serv_request
rpc_pc_serves_take t m l a b decodes sems unlocked item h more =
    let (s, ran, next) = take_lem buff_size m.store a b h more in
    (
      s,
      rw
          (
            decodes,
            alone-take produce_1_svc consume_1_svc rpc_pc-Implements code code-eq m l s (letter b)
                sems unlocked item (consume_1_svc-eq m.store ∙ ran),
          )
          refl,
      next,
    )

-- Once 1024 letters were put in all, the procedure of a producer writes past the buffer, however many
-- of them were taken.
pub rpc_pc_overruns :
    (s : Store) (a b : ℕ) → Holds buff_size s a b → buff_size ≤ a → produce_1_svc s ≡ none
rpc_pc_overruns s a b h many = produce_1_svc-eq s a b h ∙ overruns buff_size s a b h many

-- If every call of `main` succeeds the service is registered twice and the semaphores are those of an
-- empty buffer when svc_run is called.
pub rpc_pc_main_sets_up :
    (found : Sems)
    → length found ≡ 3
    → ((effects found before_run (fresh [])).sems ≡ some (view (all_free buff_size)))
      × ((effects found before_run (fresh [])).registered ≡ 2)
rpc_pc_main_sets_up (a ∷ b ∷ c ∷ []) h = (refl, refl)
rpc_pc_main_sets_up _ h = absurd (omega arith)

-- Once semget has gone through, `main` ends with status 1 and leaves the set of semaphores, whichever
-- later calls fail, and also if none does.
pub rpc_pc_main_leaks :
    (ok : ℕ → Bool) (found : Sems)
    → ok 0 ≡ true
    → ((main ok found).0 ≡ 1) × ((main ok found).1.sems ≢ none)
unfolding service
rpc_pc_main_leaks ok found got = (
  refl,
  rw (run-passes ok found 0 semget (after_semget ++ svc_run ∷ []) (fresh []) got) (
      run-keeps ok found 1 (after_semget ++ svc_run ∷ []) (effect found semget (fresh [])) refl
        (λ e. cc)),
)
