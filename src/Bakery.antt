-- ===== src/Bakery.antt =====
-- os_lab_rpc/bakery/bakery_server.c: a server that gives numbers to its clients, and serves each of
-- them when no other client has a smaller number. A request runs in a thread of its own.
pub mod Order
pub mod Race
pub mod Orderly
pub mod Request
pub mod Visit
pub mod Obakery
mod Examples
pub mod Service
use os_5sem.Prelude.{
  ℕ, zero, suc, ◌+◌, ◌≡◌, ◌<◌, refl, Bool, true, false, Option, none, some, ◌==◌, ltb, not, ◌&&◌,
  ◌||◌, if◌then◌else◌, ℕ_discrete,
}
use os_5sem.Prelude.Family.{update}

abbrev pub count_clients : ℕ
count_clients = 5

-- `numbers` and `pids`, by the index of the client, and which of the mutexes `mut` are held.
pub record Shared : Type 0 where
  pub numbers : ℕ → ℕ
  pub pids : ℕ → ℕ
  pub locked : ℕ → Bool

abbrev pub at_start : Shared
at_start = record { numbers = λ _. 0; pids = λ _. 0; locked = λ _. false }

-- `res` after the first rounds of the loop, where the numbers stay as they are.
unfoldable pub max_loop : (ℕ → ℕ) → ℕ → ℕ
max_loop numbers zero = numbers 0
max_loop numbers (suc i) =
    let res = max_loop numbers i in if ltb res (numbers i) then numbers i else res

abbrev pub max_number : (ℕ → ℕ) → ℕ
max_number numbers = max_loop numbers count_clients

-- `out`: the client `ind` has to wait for the client `i`.
unfoldable pub waits_for : Shared → ℕ → ℕ → Bool
waits_for s ind i =
    not (s.numbers i == 0)
    && (ltb (s.numbers i) (s.numbers ind)
        || (s.numbers i == s.numbers ind) && ltb (s.pids i) (s.pids ind))

-- The two requests of a client, one after the other, as `bakery_prog_1` of bakery_client.c makes
-- them.
pub data Pc : Type 0 where
  asks : Pc  -- get_number_1_svc before its lock
  searching : ℕ → ℕ → Pc  -- in max_number(), with its `i` and `res`
  chosen : ℕ → Pc  -- between max_number() and the store
  numbered : ℕ → Pc  -- the reply has come
  serving : ℕ → Pc  -- serve_1_svc, with the `i` of its loop
  served : Pc  -- behind the loop: the section
  finished : Pc

-- A move of the client `ind` with the process number `pid`; `none` if it waits for a mutex. A test
-- of the loop is one move: it holds the mutex of the client's own index. A round of the loop of
-- max_number() is one move as well.
abbrev pub get_number_1_svc : ℕ → ℕ → Shared → Pc → Option (Shared × Pc)
get_number_1_svc pid ind s asks =
    if s.locked ind
    then none
    else some (record s { locked = update s.locked ind true }, searching 0 (s.numbers 0))
get_number_1_svc pid ind s (searching i res) =
    if i == count_clients
    then some (s, chosen (res + 1))
    else some (s, searching (i + 1) (if ltb res (s.numbers i) then s.numbers i else res))
get_number_1_svc pid ind s (chosen num) = some (
  record {
    numbers = update s.numbers ind num;
    pids = update s.pids ind pid;
    locked = update s.locked ind false;
  },
  numbered num,
)
get_number_1_svc pid ind s _ = none

abbrev pub serve_1_svc : ℕ → Shared → Pc → Option (Shared × Pc)
serve_1_svc ind s (serving i) =
    if i == count_clients
    then some (s, served)
    else if s.locked ind
    then none
    else some (s, if waits_for s ind i then serving i else serving (i + 1))
serve_1_svc ind s served =
    if s.locked ind
    then none
    else some (record s { numbers = update s.numbers ind 0; pids = update s.pids ind 0 }, finished)
serve_1_svc ind s _ = none

-- The switch of `serve_1_svc`, between the loop and the reset: it reads and writes nothing that is
-- shared. The operations on floats and the conversion to int are parameters; `before` is what stood
-- in the reply, and is left there by any other operation.
module _ {F R : Type 0} (add sub mul div : F → F → F) (to_int : F → R) where
  abbrev pub compute : ℕ → F → F → R → R
  compute op arg1 arg2 before =
      if op == 0
      then to_int (add arg1 arg2)
      else if op == 1
      then to_int (sub arg1 arg2)
      else if op == 2
      then to_int (mul arg1 arg2)
      else if op == 3
      then to_int (div arg1 arg2)
      else before

-- `bakery_prog_1` of bakery_client.c: the number first, then the service.
abbrev pub client : ℕ → ℕ → Shared → Pc → Option (Shared × Pc)
client pid ind s asks = get_number_1_svc pid ind s asks
client pid ind s (searching i res) = get_number_1_svc pid ind s (searching i res)
client pid ind s (chosen num) = get_number_1_svc pid ind s (chosen num)
client pid ind s (numbered num) = some (s, serving 0)
client pid ind s c = serve_1_svc ind s c

-- The five clients; `pid` are their process numbers.
pub record System : Type 0 where
  pub shared : Shared
  pub pc : ℕ → Pc

pub data Reach (pid : ℕ → ℕ) : System → Type 0 where
  start : Reach pid (record { shared = at_start; pc = λ _. asks })
  later :
      {s : System} {u : Shared × Pc} (ind : ℕ)
      → Reach pid s
      → ind < count_clients
      → client (pid ind) ind s.shared (s.pc ind) ≡ some u
      → Reach pid (record { shared = u.0; pc = update s.pc ind u.1 })
