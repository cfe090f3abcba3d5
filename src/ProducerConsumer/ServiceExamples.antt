-- ===== src/ProducerConsumer/ServiceExamples.antt =====
-- The servers of the producers and consumers: the theorems about them at concrete states.
use os_5sem.Prelude.{ℕ, ◌+◌, ◌≤◌, ◌≡◌, refl, true, false, [], ◌∷◌, some, arith, ℕ_discrete}
use os_5sem.Prelude.Family.{update}
use os_5sem.Posix.Semop.{semop}
use os_5sem.ProducerConsumer.Slots.{Slots}
use os_5sem.ProducerConsumer.Threads.{Mem, letter}
use os_5sem.ProducerConsumer.Statements.{
  putting, waits, within, Running, Reaches, begins, then, asks, goes, begin, moved,
}
use os_5sem.ProducerConsumer.Statements.Relation.{seen}
use os_5sem.ProducerConsumer.Pc2.Lines as Pc2Lines
use os_5sem.ProducerConsumer.PcLast.Lines as LastLines
use os_5sem.ProducerConsumer.Counts.{Counts, alphabet}
use os_5sem.ProducerConsumer.Straight.{Store, first}
use os_5sem.ProducerConsumer.Alone.{Transport, consumer, replied}
use os_5sem.ProducerConsumer.Pc2
use os_5sem.ProducerConsumer.Pc2.Laws.{pc2_fifo}
use os_5sem.ProducerConsumer.PcLast
use os_5sem.ProducerConsumer.PcLast.Service as LastService
use os_5sem.ProducerConsumer.RpcRing
use os_5sem.ProducerConsumer.RpcRing.Laws.{Holds, rpc-IsRing}
use os_5sem.ProducerConsumer.RpcRing.Service as RingService

-- Thread 0 of pc2 has asked to put a letter and passed its first call of semop.
abbrev asked : Running Store
asked =
    let s = begin Pc2.arrays (first 1000) (7 ∷ 7 ∷ 7 ∷ []) in
    record s { place = update s.place 0 (waits putting) }

abbrev passed : Running Store
passed =
    moved asked 0
      (record asked.mem { sems = 0 ∷ 999 ∷ 0 ∷ [] }, within putting Pc2Lines.producer_lines 0)

passed_reached : Reaches Pc2.arrays (first 1000) Pc2Lines.by_lines 2 passed
unfolding semop ℕ_discrete
passed_reached =
    then (then (begins (7 ∷ 7 ∷ 7 ∷ []) refl) (asks 0 putting (omega arith) refl))
      (goes 0 (omega arith) refl)

pc2_fifo_example :
    (l : Slots) × (puts : ℕ) × (takes : ℕ) × (passed.mem.sems ≡ Pc2.view l)
    × (passed.made ≡ alphabet puts)
    × (passed.taken ≡ alphabet takes)
    × (takes ≤ puts)
    × (puts ≤ 1000 + takes)
    × Counts 1000 l puts takes 2 (λ i. seen (passed.place i))
pc2_fifo_example = pc2_fifo passed_reached

-- The same for pc_last.
abbrev last_asked : Running PcLast.Store
last_asked =
    let s = begin PcLast.arrays LastService.first (7 ∷ 7 ∷ 7 ∷ []) in
    record s { place = update s.place 0 (waits putting) }

abbrev last_passed : Running PcLast.Store
last_passed =
    moved last_asked 0 (
      record last_asked.mem { sems = 0 ∷ 0 ∷ 4095 ∷ [] },
      within putting LastLines.producer_lines 0,
    )

last_passed_reached : Reaches PcLast.arrays LastService.first LastLines.by_lines 2 last_passed
unfolding semop ℕ_discrete
last_passed_reached =
    then (then (begins (7 ∷ 7 ∷ 7 ∷ []) refl) (asks 0 putting (omega arith) refl))
      (goes 0 (omega arith) refl)

last_fifo_example :
    (l : Slots) × (puts : ℕ) × (takes : ℕ) × (last_passed.mem.sems ≡ PcLast.view l)
    × (last_passed.made ≡ alphabet puts)
    × (last_passed.taken ≡ alphabet takes)
    × (takes ≤ puts)
    × (puts ≤ 4096 + takes)
    × Counts 4096 l puts takes 2 (λ i. seen (last_passed.place i))
last_fifo_example = LastService.last_fifo last_passed_reached

-- A ring with one letter, and a transport that works.
abbrev one_put :
    (t : RpcRing.Store) × (RpcRing.put RpcRing.first ≡ some (t, letter 0)) × Holds t 1 0
one_put = rpc-IsRing.puts_next RpcRing.first 0 0 rpc-IsRing.starts (omega arith)

abbrev works : Transport
works = record { decodes = true; arg = 7; sends = true; frees = true }

abbrev one_letter : Mem RpcRing.Store
one_letter = record { sems = 1 ∷ 9 ∷ 1 ∷ []; store = one_put.0 }

rpc_serves_take_example :
    (s : RpcRing.Store) × (RingService.pc_prog_1 consumer works one_letter
      ≡ some (record {
        mem = record { sems = 1 ∷ 10 ∷ 0 ∷ []; store = s };
        answer = replied b'a';
        exits = false;
      }))
    × Holds s 1 1
rpc_serves_take_example =
    RingService.rpc_serves_take works one_letter (record { free = 9; full = 1; held = false }) 1 0
      refl refl refl (omega arith) one_put.2 (omega arith)
