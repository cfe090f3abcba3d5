-- ===== src/ProducerConsumer/Clients/Examples.antt =====
-- Clients at the servers as they are started.
use os_5sem.Prelude.{◌≡◌, refl, true, false, [], ◌∷◌, arith}
use os_5sem.ProducerConsumer.Slots.{all_free}
use os_5sem.ProducerConsumer.Threads.{Mem}
use os_5sem.ProducerConsumer.Alone.{Transport}
use os_5sem.ProducerConsumer.RpcRing
use os_5sem.ProducerConsumer.RpcRing.Laws.{rpc-IsRing}
use os_5sem.ProducerConsumer.Clients.{up, pc_client}
use os_5sem.ProducerConsumer.Clients.Laws.{letter_lines, printed}
use os_5sem.ProducerConsumer.Clients.RoundTrip.{RingAt, as_producer, as_consumer, pc_round_trip}

abbrev good : Transport
good = record { decodes = true; arg = 0; sends = true; frees = true }

abbrev unanswered : Transport
unanswered = record { decodes = true; arg = 0; sends = false; frees = true }

abbrev empty_ring : Mem RpcRing.Store
empty_ring = record { sems = 1 ∷ 10 ∷ 0 ∷ []; store = RpcRing.first }

ring_starts : RingAt 0 0 empty_ring
ring_starts = (all_free 10, refl, refl, refl, refl, rpc-IsRing.starts)

pc_round_trip_example :
    (m1 m2 : Mem RpcRing.Store) × (pc_client as_producer (good ∷ good ∷ []) (up empty_ring)
      ≡ printed (letter_lines 0 2) m1)
    × (pc_client as_consumer (good ∷ good ∷ []) (up m1) ≡ printed (letter_lines 0 2) m2)
    × RingAt 2 2 m2
pc_round_trip_example =
    pc_round_trip (good ∷ good ∷ []) (good ∷ good ∷ []) empty_ring 0
      ((refl, refl), refl, ((refl, refl), refl, tt)) ((refl, refl), refl, ((refl, refl), refl, tt))
      (omega arith) refl ring_starts
