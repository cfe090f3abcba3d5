-- ===== src/ProducerConsumer/Pc2/Laws.antt =====
-- os_lab_rpc/pc2: what its server promises, and where it breaks.
use os_5sem.Prelude.{
  ◌++◌, ℕ, suc, ◌+◌, ◌-◌, ◌<◌, ◌≤◌, ◌≡◌, ◌≢◌, refl, sym, ◌∙◌, Bool, true, false, [], ◌∷◌, none,
  some, if◌then◌else◌, length, not, arith,
}
use os_5sem.Posix.Semop.{Sems}
use os_5sem.Posix.Script.{svc_run, sem_rm, effects, run, fresh, service, run-effects, ftok}
use os_5sem.Posix.Script.Leaks.{run-append, run-leaves}
use os_5sem.ProducerConsumer.Slots.{Slots, all_free}
use os_5sem.ProducerConsumer.Threads.{Mem, letter}
use os_5sem.ProducerConsumer.Counts.{Counts, alphabet, IsWalk}
use os_5sem.ProducerConsumer.Straight.{
  Store, first, put, take, Holds, put_lem, take_lem, overruns, straight-IsWalk,
}
use os_5sem.ProducerConsumer.Alone.{
  Transport, replied, system_error, producer, consumer, alone-put, alone-take,
}
use os_5sem.ProducerConsumer.Statements.{Running, Reaches}
use os_5sem.ProducerConsumer.Statements.Safety as ByLines
use os_5sem.ProducerConsumer.Statements.Relation.{seen}
use os_5sem.ProducerConsumer.Pc2.Lines.{lines, by_lines, lines-whole, by_lines-eq}
use os_5sem.ProducerConsumer.Pc2.{
  size_buf, arrays, producer_1_svc, consumer_1_svc, code, code-eq, view, pc2-Implements,
  serv_request, before_run, after_semget, main,
}

producer_1_svc-eq : (s : Store) → producer_1_svc s ≡ put s
unfolding producer_1_svc put
producer_1_svc-eq s = refl

consumer_1_svc-eq : (s : Store) → consumer_1_svc s ≡ take s
unfolding consumer_1_svc take
consumer_1_svc-eq s = refl

pc2-IsWalk : IsWalk size_buf producer_1_svc consumer_1_svc (first size_buf) (Holds size_buf)
pc2-IsWalk =
    let walk = straight-IsWalk size_buf in
    record {
      starts = walk.starts;
      puts_next =
          λ s t a b c h room e. walk.puts_next s t a b c h room (sym (producer_1_svc-eq s) ∙ e);
      takes_next =
          λ s t a b c h item e. walk.takes_next s t a b c h item (sym (consumer_1_svc-eq s) ∙ e);
    }

-- However the statements of the threads of the server are interleaved, as long as no producer has left
-- the buffer: the letters that were put are those of the alphabet over and over, the letters that were
-- taken are the first of those in the same order, at most a thousand are put and not taken, and the
-- semaphores are a lock that is held exactly while a thread stands between its calls, the places that
-- are neither filled nor claimed, and the letters that are announced and not claimed.
pub pc2_fifo :
    {n : ℕ} {s : Running Store}
    → Reaches arrays (first size_buf) by_lines n s
    → (l : Slots) × (puts : ℕ) × (takes : ℕ) × (s.mem.sems ≡ view l)
      × (s.made ≡ alphabet puts)
      × (s.taken ≡ alphabet takes)
      × (takes ≤ puts)
      × (puts ≤ size_buf + takes)
      × Counts size_buf l puts takes n (λ i. seen (s.place i))
pc2_fifo q =
    let (l, puts, takes, sems, made, taken, counts) =
      ByLines.counted lines by_lines pc2-Implements pc2-IsWalk lines-whole by_lines-eq q in
    (
      l,
      puts,
      takes,
      sems,
      made,
      taken,
      omega (arith, counts.fulls),
      omega (arith, counts.frees),
      counts,
    )

-- A request to put a letter while a place is free, the lock is open, and fewer than 1000 letters were
-- put: the next letter of the alphabet stands in the buffer and in the reply, and the counts of the
-- places have moved by one.
pub pc2_serves_put :
    (t : Transport) (m : Mem Store) (l : Slots) (a b : ℕ)
    → t.decodes ≡ true
    → m.sems ≡ view l
    → l.held ≡ false
    → 0 < l.free
    → Holds size_buf m.store a b
    → a < size_buf
    → (s : Store) × (serv_request producer t m
        ≡ some (record {
          mem = record {
            sems = view (record { free = l.free - 1; full = l.full + 1; held = false });
            store = s;
          };
          answer = if t.sends then replied (letter a) else system_error;
          exits = not t.frees;
        }))
      × Holds size_buf s (suc a) b
unfolding serv_request
pc2_serves_put t m l a b decodes sems unlocked room h inside =
    let (s, ran, next) = put_lem size_buf m.store a b h inside in
    (
      s,
      rw
          (
            decodes,
            alone-put producer_1_svc consumer_1_svc pc2-Implements code code-eq m l s (letter a)
                sems unlocked room (producer_1_svc-eq m.store ∙ ran),
          )
          refl,
      next,
    )

-- A request to take a letter while a place is filled and the lock is open gets the oldest letter that
-- was not taken.
pub pc2_serves_take :
    (t : Transport) (m : Mem Store) (l : Slots) (a b : ℕ)
    → t.decodes ≡ true
    → m.sems ≡ view l
    → l.held ≡ false
    → 0 < l.full
    → Holds size_buf m.store a b
    → b < a
    → (s : Store) × (serv_request consumer t m
        ≡ some (record {
          mem = record {
            sems = view (record { free = l.free + 1; full = l.full - 1; held = false });
            store = s;
          };
          answer = if t.sends then replied (letter b) else system_error;
          exits = not t.frees;
        }))
      × Holds size_buf s a (suc b)
unfolding serv_request
pc2_serves_take t m l a b decodes sems unlocked item h more =
    let (s, ran, next) = take_lem size_buf m.store a b h more in
    (
      s,
      rw
          (
            decodes,
            alone-take producer_1_svc consumer_1_svc pc2-Implements code code-eq m l s (letter b)
                sems unlocked item (consumer_1_svc-eq m.store ∙ ran),
          )
          refl,
      next,
    )

-- Once 1000 letters were put in all, the procedure of a producer writes past the buffer, however many
-- of them were taken.
pub pc2_overruns :
    (s : Store) (a b : ℕ) → Holds size_buf s a b → size_buf ≤ a → producer_1_svc s ≡ none
pc2_overruns s a b h many = producer_1_svc-eq s ∙ overruns size_buf s a b h many

-- If every call of `main` succeeds the service is registered twice and the semaphores are those of an
-- empty buffer when svc_run is called, and when it has returned the set is removed; the exit status is
-- 1 all the same.
pub pc2_main_ends :
    (ok : ℕ → Bool) (found : Sems)
    → ((k : ℕ) → ok k ≡ true)
    → length found ≡ 3
    → ((effects found before_run (fresh [])).sems ≡ some (view (all_free size_buf)))
      × ((effects found before_run (fresh [])).registered ≡ 2)
      × ((main ok found).1.sems ≡ none)
      × ((main ok found).0 ≡ 1)
unfolding service
pc2_main_ends ok (a ∷ b ∷ c ∷ []) all h = (
  refl,
  refl,
  rw (run-effects ok (a ∷ b ∷ c ∷ []) 0 (before_run ++ svc_run ∷ sem_rm ∷ []) (fresh []) all) refl,
  refl,
)
pc2_main_ends ok _ all h = absurd (omega arith)

-- If a call between semget and svc_run fails, `main` exits and leaves the set of semaphores.
pub pc2_main_leaks :
    (ok : ℕ → Bool) (found : Sems)
    → ok 0 ≡ true
    → ok 1 ≡ true
    → (run ok found 0 before_run (fresh [])).0 ≢ 0
    → ((main ok found).0 ≡ 1) × ((main ok found).1.sems ≢ none)
unfolding service
pc2_main_leaks ok found key got bad = (
  refl,
  rw (run-append ok found 0 before_run (svc_run ∷ sem_rm ∷ []) (fresh []) bad)
      (run-leaves ok found 0 ftok after_semget (fresh []) key got refl),
)
