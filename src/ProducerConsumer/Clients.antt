-- ===== src/ProducerConsumer/Clients.antt =====
-- The clients of the producer-consumer servers, pc_client.c in os_lab_rpc/pc, pc2, rpc_pc and pc_last:
-- each makes one call after the other, while no other client makes one.
pub mod Laws
pub mod RoundTrip
pub mod Twice
mod Examples
use os_5sem.Prelude.{
  ℕ, ◌+◌, ◌≡◌, Bool, true, false, List, [], ◌∷◌, ◌++◌, Option, none, some, ◌==◌, ltb, not, ◌&&◌,
  if◌then◌else◌,
}
use os_5sem.ProducerConsumer.Threads.{Mem}
use os_5sem.ProducerConsumer.Alone.{
  Transport, Served, Answer, replied, null_reply, noproc, decode_error, system_error, silent, Proc,
  producer, consumer,
}
use os_5sem.ProducerConsumer.RpcRing.Service as RingService
use os_5sem.ProducerConsumer.RpcRing
use os_5sem.ProducerConsumer.Pc2
use os_5sem.ProducerConsumer.RpcPc
use os_5sem.ProducerConsumer.Straight.{Store}
use os_5sem.ProducerConsumer.PcLast
use os_5sem.ProducerConsumer.PcLast.Service as LastService

-- A server that a failed svc_freeargs has ended treats no call.
pub data Server (S : Type 0) : Type 0 where
  up : Mem S → Server S
  down : Server S

abbrev pub Service : Type 0 → Type 0
Service S = Transport → Mem S → Option (Served S)

abbrev pub letter_in : Answer → Option ℕ
letter_in (replied c) = some c
letter_in null_reply = none
letter_in _ = none

abbrev pub received : {S : Type 0} → Option (Served S) → Option (Option ℕ × Server S)
received none = none
received (some u) = some (letter_in u.answer, if u.exits then down else up u.mem)

-- A call whose request comes to the server once, with the letter if it returns RPC_SUCCESS: that the
-- library sends a request again over udp while no reply comes is left out; `none` where the server waits for a place.
abbrev pub remote : {S : Type 0} → Service S → Transport → Server S → Option (Option ℕ × Server S)
remote f t down = some (none, down)
remote f t (up m) = received (f t m)

-- A line that the client prints: the letter of a call, what stands in its variable, or the error.
pub data Line : Type 0 where
  letter_line : ℕ → Line
  old_line : Option ℕ → Line  -- after a failed call; `none` before any other one
  error_line : Line

pub data How : Type 0 where
  calls waits : How
  exits : ℕ → How

pub record Ended (S : Type 0) : Type 0 where
  pub lines : List Line
  pub server : Server S
  pub how : How

abbrev pub add_lines : {S : Type 0} → List Line → Ended S → Ended S
add_lines ls e = record e { lines = ls ++ e.lines }

abbrev pub stopped : {S : Type 0} → Server S → How → Ended S
stopped s h = record { lines = []; server = s; how = h }

-- A round of the loop that a failed call ends.
abbrev pub round_until :
    {S : Type 0} → (Server S → Ended S) → Server S → Option (Option ℕ × Server S) → Ended S
round_until more s none = stopped s waits
round_until more s (some (none, s')) = add_lines (error_line ∷ []) (stopped s' (exits 0))
round_until more s (some (some c, s')) = add_lines (letter_line c ∷ []) (more s')

-- A round of the loop that goes on, and prints the variable in any case.
abbrev pub round_past :
    {S : Type 0}
    → (Option ℕ → Server S → Ended S)
    → Option ℕ
    → Server S
    → Option (Option ℕ × Server S)
    → Ended S
round_past more last s none = stopped s waits
round_past more last s (some (none, s')) =
    add_lines (error_line ∷ old_line last ∷ []) (more last s')
round_past more last s (some (some c, s')) = add_lines (letter_line c ∷ []) (more (some c) s')

-- The two loops. The list has how the calls end.
module _ {S : Type 0} (f : Service S) where
  unfoldable pub until_error : List Transport → Server S → Ended S
  until_error [] s = stopped s calls
  until_error (t ∷ ts) s = round_until (until_error ts) s (remote f t s)

  unfoldable pub past_errors : Option ℕ → List Transport → Server S → Ended S
  past_errors last [] s = stopped s calls
  past_errors last (t ∷ ts) s = round_past (λ l. past_errors l ts) last s (remote f t s)

-- The arguments of a client: how many, the first character of the second, and whether clnt_create
-- succeeds.
pub record Args : Type 0 where
  pub argc : ℕ
  pub type : ℕ
  pub created : Bool

abbrev pub exit_1 : {S : Type 0} → Server S → Ended S
exit_1 s = record { lines = []; server = s; how = exits 1 }

-- The procedure that a type asks for.
abbrev proc_of : ℕ → Proc
proc_of type = if type == b'p' then producer else consumer

abbrev is_type : ℕ → Bool
is_type type = if type == b'p' then true else type == b'c'

unfoldable pub pc_client : Args → List Transport → Server RpcRing.Store → Ended RpcRing.Store
pc_client a ts s =
    if ltb a.argc 3
    then exit_1 s
    else if not (is_type a.type)
    then exit_1 s
    else if not a.created
    then exit_1 s
    else until_error (RingService.pc_prog_1 (proc_of a.type)) ts s

unfoldable pub pc2_client : Args → List Transport → Server Store → Ended Store
pc2_client a ts s =
    if ltb a.argc 3
    then exit_1 s
    else if not (is_type a.type)
    then exit_1 s
    else if not a.created
    then exit_1 s
    else past_errors (Pc2.serv_request (proc_of a.type)) none ts s

unfoldable pub rpc_pc_client : Args → List Transport → Server Store → Ended Store
rpc_pc_client a ts s =
    if not (a.argc == 3)
    then exit_1 s
    else if not (is_type a.type)
    then exit_1 s
    else if not a.created
    then exit_1 s
    else past_errors (RpcPc.serv_request (proc_of a.type)) none ts s

abbrev asks_for : ℕ → Service PcLast.Store
asks_for role t m = LastService.serv_request LastService.service_proc (record t { arg = role }) m

-- What follows a loop that an error has ended.
abbrev pub and_then : {S : Type 0} → Ended S → (Server S → Ended S) → Ended S
and_then e next = elim e.how [
  | calls ↦ e
  | waits ↦ e
  | exits n ↦ let more = next e.server in record more { lines = e.lines ++ more.lines }
]

-- `main` of pc_last calls pc_prog_1 twice, the second time with the character itself as the role.
-- `again` says whether the second clnt_create succeeds, and `ts'` are the calls of the second loop.
unfoldable pub last_client :
    Args → Bool → List Transport → List Transport → Server PcLast.Store → Ended PcLast.Store
last_client a again ts ts' s =
    let second = λ (s' : Server PcLast.Store).
      if again then until_error (asks_for a.type) ts' s' else exit_1 s' in
    if ltb a.argc 3
    then exit_1 s
    else if not (is_type a.type)
    then exit_1 s
    else if not a.created
    then exit_1 s
    else and_then (until_error (asks_for (if a.type == b'p' then 0 else 1)) ts s) second
