-- ===== src/ProducerConsumer/Clients/RoundTrip.antt =====
-- os_lab_rpc/pc, pc2, rpc_pc and pc_last: clients at their servers.
use os_5sem.Prelude.{
  ℕ, ◌+◌, ◌-◌, ◌≤◌, ◌≡◌, refl, ap, ◌∙◌, true, false, List, Option, some, if◌then◌else◌, length, not,
  arith,
}
use os_5sem.Posix.Semop.{Sems}
use os_5sem.ProducerConsumer.Slots.{Slots}
use os_5sem.ProducerConsumer.Threads.{Mem, letter}
use os_5sem.ProducerConsumer.Alone.{Transport, Served, replied, system_error, producer, consumer}
use os_5sem.ProducerConsumer.RpcRing
use os_5sem.ProducerConsumer.RpcRing.Laws.{Holds}
use os_5sem.ProducerConsumer.RpcRing.Service.{pc_prog_1, rpc_serves_put, rpc_serves_take}
use os_5sem.ProducerConsumer.Straight
use os_5sem.ProducerConsumer.Pc2
use os_5sem.ProducerConsumer.Pc2.Laws.{pc2_serves_put, pc2_serves_take}
use mathlib.Core.Path.{subst}
use os_5sem.ProducerConsumer.Clients.{up, Args, pc_client}
use os_5sem.ProducerConsumer.Clients.Laws.{
  AllAnswered, served, IsServer, letter_lines, printed, until_error-puts, until_error-takes,
}

-- No request is treated, and the semaphores count the places of the ring.
abbrev pub At : {S : Type 0} → (Slots → Sems) → ℕ → (S → ℕ → ℕ → Type 0) → ℕ → ℕ → Mem S → Type 0
At view size Holds a b m =
    (l : Slots) × (m.sems ≡ view l)
    × (l.held ≡ false)
    × (l.full + b ≡ a)
    × (l.free + a ≡ size + b)
    × Holds m.store a b

abbrev pub RingAt : ℕ → ℕ → Mem RpcRing.Store → Type 0
RingAt = At RpcRing.view 10 Holds

-- The counts after a letter was put, and after one was taken.
abbrev pub one_in : Slots → Slots
one_in l = record { free = l.free - 1; full = l.full + 1; held = false }

abbrev pub one_out : Slots → Slots
one_out l = record { free = l.free + 1; full = l.full - 1; held = false }

pc-IsServer : IsServer (pc_prog_1 producer) (pc_prog_1 consumer) (λ b. 10 + b) RingAt
pc-IsServer = record {
  puts = λ t m a b treated (l, sems, open_lock, full, free, holds) room.
      let (s, e, next) =
        rpc_serves_put t m l a b treated.0 sems open_lock (omega arith) holds room in
      (_, e, (one_in l, refl, refl, omega arith, omega arith, next));
  takes = λ t m a b treated (l, sems, open_lock, full, free, holds) room.
      let (s, e, next) =
        rpc_serves_take t m l a b treated.0 sems open_lock (omega arith) holds room in
      (_, e, (one_out l, refl, refl, omega arith, omega arith, next));
}

-- What serv_request leaves, if its arguments could be freed.
pub freed :
    {S : Type 0} (t : Transport) (m : Mem S) (c : ℕ) (o : Option (Served S))
    → t.frees ≡ true
    → o
      ≡ some (record {
        mem = m;
        answer = if t.sends then replied c else system_error;
        exits = not t.frees;
      })
    → o ≡ served t m c
freed t m c o frees e = e ∙ rw frees refl

abbrev pub LineAt : ℕ → ℕ → Mem Straight.Store → Type 0
LineAt = At Pc2.view 1000 (Straight.Holds 1000)

pc2-IsServer : IsServer (Pc2.serv_request producer) (Pc2.serv_request consumer) (λ b. 1000) LineAt
pc2-IsServer = record {
  puts = λ t m a b treated (l, sems, open_lock, full, free, holds) room.
      let (s, e, next) =
        pc2_serves_put t m l a b treated.0 sems open_lock (omega arith) holds room in
      (
        _,
        freed t (record { sems = Pc2.view (one_in l); store = s }) (letter a)
            (Pc2.serv_request producer t m) treated.1 e,
        (one_in l, refl, refl, omega arith, omega arith, next),
      );
  takes = λ t m a b treated (l, sems, open_lock, full, free, holds) room.
      let (s, e, next) =
        pc2_serves_take t m l a b treated.0 sems open_lock (omega arith) holds room in
      (
        _,
        freed t (record { sems = Pc2.view (one_out l); store = s }) (letter b)
            (Pc2.serv_request consumer t m) treated.1 e,
        (one_out l, refl, refl, omega arith, omega arith, next),
      );
}

abbrev pub as_producer : Args
as_producer = record { argc = 3; type = b'p'; created = true }

abbrev pub as_consumer : Args
as_consumer = record { argc = 3; type = b'c'; created = true }

-- At an empty ring, and while no other client makes a call: a client started with p whose calls, ten
-- at most, are all answered prints the next letters of the alphabet, a client started with c that then
-- makes as many calls prints the same lines, and the ring is empty again.
pub pc_round_trip :
    (ts ts' : List Transport) (m : Mem RpcRing.Store) (a : ℕ)
    → AllAnswered ts
    → AllAnswered ts'
    → length ts ≤ 10
    → length ts' ≡ length ts
    → RingAt a a m
    → (m1 m2 : Mem RpcRing.Store) × (pc_client as_producer ts (up m)
        ≡ printed (letter_lines a (length ts)) m1)
      × (pc_client as_consumer ts' (up m1) ≡ printed (letter_lines a (length ts)) m2)
      × RingAt (a + length ts) (a + length ts) m2
unfolding pc_client
pc_round_trip ts ts' m a all all' few same at =
    let (m1, e1, at1) = until_error-puts pc-IsServer ts m a a all at (omega arith) in
    let (m2, e2, at2) =
      until_error-takes pc-IsServer ts' m1 (a + length ts) a all' at1 (omega arith) in
    (
      m1,
      m2,
      e1,
      e2 ∙ ap (λ k. printed (letter_lines a k) m2) same,
      subst (λ k. RingAt (a + length ts) (a + k) m2) same at2,
    )
