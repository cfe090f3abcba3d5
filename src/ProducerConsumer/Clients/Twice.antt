-- ===== src/ProducerConsumer/Clients/Twice.antt =====
-- os_lab_rpc/pc_last/pc_client.c: its `main` makes a second round of calls.
use os_5sem.Prelude.{ℕ, suc, ◌<◌, ◌≡◌, refl, ap, ◌∙◌, true, false, List, [], ◌∷◌, arith}
use os_5sem.ProducerConsumer.Threads.{Mem, letter}
use os_5sem.ProducerConsumer.Alone.{Transport}
use os_5sem.ProducerConsumer.PcLast
use os_5sem.ProducerConsumer.PcLast.Service.{last_serves_put, last_serves_take, last_silent}
use os_5sem.ProducerConsumer.Clients.{
  up, error_line, exits, Ended, received, round_until, until_error, and_then, asks_for, last_client,
}
use os_5sem.ProducerConsumer.Clients.Laws.{IsTreated, IsServer, until_error-lost}
use os_5sem.ProducerConsumer.Clients.RoundTrip.{At, as_producer, one_in, one_out, freed}

abbrev pub LastAt : ℕ → ℕ → Mem PcLast.Store → Type 0
LastAt = At PcLast.view 4096 PcLast.Holds

last-IsServer : IsServer (asks_for 0) (asks_for 1) (λ b. 4096) LastAt
last-IsServer = record {
  puts = λ t m a b treated (l, sems, open_lock, full, free, holds) room.
      let (s, e, next) =
        last_serves_put (record t { arg = 0 }) m l a b treated.0 refl sems open_lock (omega arith)
          holds room in
      (
        _,
        freed (record t { arg = 0 }) (record { sems = PcLast.view (one_in l); store = s })
            (letter a) (asks_for 0 t m) treated.1 e,
        (one_in l, refl, refl, omega arith, omega arith, next),
      );
  takes = λ t m a b treated (l, sems, open_lock, full, free, holds) room.
      let (s, e, next) =
        last_serves_take (record t { arg = 1 }) m l a b treated.0 refl sems open_lock (omega arith)
          holds room in
      (
        _,
        freed (record t { arg = 1 }) (record { sems = PcLast.view (one_out l); store = s })
            (letter b) (asks_for 1 t m) treated.1 e,
        (one_out l, refl, refl, omega arith, omega arith, next),
      );
}

refused :
    (role : ℕ) (t : Transport) (ts : List Transport) (m : Mem PcLast.Store)
    → 1 < role
    → IsTreated t
    → until_error (asks_for role) (t ∷ ts) (up m)
      ≡ record { lines = error_line ∷ []; server = up m; how = exits 0 }
unfolding until_error
refused role t ts m other treated =
    ap (λ o. round_until (until_error (asks_for role) ts) (up m) (received o))
      (last_silent (record t { arg = role }) m treated.0 other)
    ∙ rw (treated.1) refl

-- A client started with p whose reply is lost makes another call, if it can create its handle again and
-- the call arrives: that one asks for neither a producer nor a consumer, is not answered and changes
-- nothing, and then the client exits with status 0.  The letter of the lost reply was put.
pub last_client_twice :
    (t t' : Transport) (ts ts' : List Transport) (m : Mem PcLast.Store) (a b : ℕ)
    → IsTreated t
    → t.sends ≡ false
    → IsTreated t'
    → LastAt a b m
    → a < 4096
    → (m' : Mem PcLast.Store) × (last_client as_producer true (t ∷ ts) (t' ∷ ts') (up m)
        ≡ record { lines = error_line ∷ error_line ∷ []; server = up m'; how = exits 0 })
      × LastAt (suc a) b m'
unfolding last_client
last_client_twice t t' ts ts' m a b treated lost treated' at room =
    let (m1, e, at1) = until_error-lost last-IsServer t ts m a b treated lost at room in
    (
      m1,
      ap (λ x. and_then x (λ s. until_error (asks_for b'p') (t' ∷ ts') s)) e
          ∙ ap (λ (x : Ended PcLast.Store). record x { lines = error_line ∷ x.lines })
              (refused b'p' t' ts' m1 (omega arith) treated'),
      at1,
    )
