-- ===== src/ProducerConsumer/Examples.antt =====
-- The producer-consumer programs run: the theorems about them at concrete states.
use os_5sem.Prelude.{
  ℕ, ◌+◌, ◌≤◌, ◌≡◌, ◌⊎◌, refl, some, List, [], ◌∷◌, replicate, length-replicate, arith, ℕ_discrete,
}
use os_5sem.Prelude.Family.{update}
use os_5sem.Posix.Semop.{Sems, semop, done}
use os_5sem.ProducerConsumer.Statements.{
  putting, taking, waits, within, Running, Reaches, begins, then, asks, goes, begin, moved,
}
use os_5sem.ProducerConsumer.Counts.{alphabet}
use os_5sem.ProducerConsumer.RpcRing
use os_5sem.ProducerConsumer.RpcRing.Lines as RpcLines
use os_5sem.ProducerConsumer.RpcRing.Laws.{rpc_fifo, rpc_never_both_wait}
use os_5sem.ProducerConsumer.OldRing
use os_5sem.ProducerConsumer.OldRing.Lines as OldLines
use os_5sem.ProducerConsumer.OldRing.Laws.{old_fifo}
use os_5sem.ProducerConsumer.Lesson.{first as lesson_start, Segment}
use os_5sem.ProducerConsumer.Lesson.Laps.{produces, lap_slides}

-- The statements behind the first.
abbrev behind : {A : Type 0} → List A → List A
behind [] = []
behind (now ∷ rest) = rest

-- Thread 0 has written its letter and is about to reply; thread 1 asks for a letter.
abbrev rpc0 : Running RpcRing.Store
rpc0 = begin RpcRing.arrays RpcRing.first (7 ∷ 7 ∷ 7 ∷ [])

abbrev rpc1 : Running RpcRing.Store
rpc1 = record rpc0 { place = update rpc0.place 0 (waits putting) }

abbrev rpc2 : Running RpcRing.Store
rpc2 =
    moved rpc1 0
      (record rpc1.mem { sems = 0 ∷ 9 ∷ 0 ∷ [] }, within putting RpcLines.producer_lines 0)

abbrev rpc3 : Running RpcRing.Store
rpc3 = moved rpc2 0 (
  record rpc2.mem { store = record RpcRing.first { buffer = b'a' ∷ replicate 9 b'-' } },
  within putting (behind RpcLines.producer_lines) 0,
)

abbrev rpc4 : Running RpcRing.Store
rpc4 = record rpc3 { place = update rpc3.place 1 (waits taking) }

rpc4_reached : Reaches RpcRing.arrays RpcRing.first RpcLines.by_lines 2 rpc4
unfolding semop ℕ_discrete
rpc4_reached =
    then
      (then
        (then (then (begins (7 ∷ 7 ∷ 7 ∷ []) refl) (asks 0 putting (omega arith) refl))
          (goes 0 (omega arith) refl))
        (goes 0 (omega arith) refl))
      (asks 1 taking (omega arith) refl)

rpc_fifo_example :
    (puts : ℕ) × (takes : ℕ) × (rpc4.made ≡ alphabet puts)
    × (rpc4.taken ≡ alphabet takes)
    × (takes ≤ puts)
    × (puts ≤ 10 + takes)
rpc_fifo_example = rpc_fifo rpc4_reached

rpc_never_both_wait_example :
    ((t : Sems) × (semop RpcRing.start_prod rpc0.mem.sems ≡ done t))
    ⊎ ((t : Sems) × (semop RpcRing.start_cons rpc0.mem.sems ≡ done t))
rpc_never_both_wait_example =
    rpc_never_both_wait {n = 2} (begins (7 ∷ 7 ∷ 7 ∷ []) refl) (λ j lt. refl)

-- Memory as malloc may have left it.
abbrev junk : List ℕ
junk = replicate 1000 9

abbrev old0 : Running OldRing.Store
old0 = begin OldRing.arrays (OldRing.first junk) (7 ∷ 7 ∷ 7 ∷ [])

abbrev old1 : Running OldRing.Store
old1 = record old0 { place = update old0.place 0 (waits putting) }

abbrev old2 : Running OldRing.Store
old2 =
    moved old1 0
      (record old1.mem { sems = 0 ∷ 999 ∷ 0 ∷ [] }, within putting OldLines.producer_lines 0)

old2_reached : Reaches OldRing.arrays (OldRing.first junk) OldLines.by_lines 2 old2
unfolding semop ℕ_discrete
old2_reached =
    then (then (begins (7 ∷ 7 ∷ 7 ∷ []) refl) (asks 0 putting (omega arith) refl))
      (goes 0 (omega arith) refl)

old_fifo_example :
    (puts : ℕ) × (takes : ℕ) × (old2.made ≡ alphabet puts)
    × (old2.taken ≡ alphabet takes)
    × (takes ≤ puts)
    × (puts ≤ 1000 + takes)
old_fifo_example = old_fifo junk (length-replicate {A = ℕ} 1000 9) old2_reached

abbrev lesson : Segment
lesson = lesson_start (λ _. 0)

lap_slides_example :
    (t : Segment) × (produces 26 lesson ≡ some t) × (t.cells 0 ≡ b'a') × (t.ptr_prod + 1 ≡ 1)
unfolding ℕ_discrete
lap_slides_example = lap_slides lesson refl (omega arith)
