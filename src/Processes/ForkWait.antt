-- ===== src/Processes/ForkWait.antt =====
-- A process that forks a number of children in one loop, and in a second one waits for as many: the
-- main functions of os_lab_2/prog3.c and exec.c, and of os_lab_rpc/bakery/bakery_client.c.
pub mod Laws
mod Examples
use os_5sem.Prelude.{ℕ, ◌+◌, ◌<◌, ◌≡◌, ◌⊎◌, List, [], ◌∷◌, ◌++◌}
use os_5sem.Prelude.Family.{update}
use os_5sem.Processes.{Status, exited, killed}
use os_5sem.Processes.Count.{Child, unborn, running, zombie, reaped, Children}

-- Where the parent stands.
pub data Main : Type 0 where
  forking : ℕ → Main  -- with the `i` of the loop
  waiting : ℕ → Main
  done : ℕ → Main

-- `printed` are the children of the reports that the parent has printed, with how they ended.
pub record System : Type 0 where
  pub main : Main
  pub child : Children
  pub printed : List (ℕ × Status)

abbrev pub at_start : System
at_start = record { main = forking 0; child = λ _. unborn; printed = [] }

-- `Ends i st`: the child `i` may end so. A call of wait takes any child that has ended, and may also
-- be ended by a signal.
pub data Reach (n : ℕ) (Ends : ℕ → Status → Type 0) : System → Type 0 where
  start : Reach n Ends at_start
  forks :
      {s : System} (i : ℕ)
      → Reach n Ends s
      → s.main ≡ forking i
      → i < n
      → Reach n Ends (record s { main = forking (i + 1); child = update s.child i running })
  fork_fails :
      {s : System} (i : ℕ)
      → Reach n Ends s
      → s.main ≡ forking i
      → i < n
      → Reach n Ends (record s { main = done 1 })
  forked_all :
      {s : System}
      → Reach n Ends s
      → s.main ≡ forking n
      → Reach n Ends (record s { main = waiting 0 })
  ends :
      {s : System} (i : ℕ) (st : Status)
      → Reach n Ends s
      → s.child i ≡ running
      → Ends i st
      → Reach n Ends (record s { child = update s.child i (zombie st) })
  waits :
      {s : System} (k i : ℕ) (st : Status)
      → Reach n Ends s
      → s.main ≡ waiting k
      → k < n
      → s.child i ≡ zombie st
      → Reach n Ends (record {
        main = waiting (k + 1);
        child = update s.child i (reaped st);
        printed = s.printed ++ (i, st) ∷ [];
      })
  wait_fails :
      {s : System} (k : ℕ)
      → Reach n Ends s
      → s.main ≡ waiting k
      → k < n
      → Reach n Ends (record s { main = done 1 })
  waited_all :
      {s : System} → Reach n Ends s → s.main ≡ waiting n → Reach n Ends (record s { main = done 0 })

-- prog3.c and exec.c: a child whose execv fails exits with status 1, and otherwise it is the program,
-- of which `Prog` says how it may end. Any child may be killed.
pub data Execs (Prog : ℕ → ℕ → Type 0) : ℕ → Status → Type 0 where
  no_exec : (i : ℕ) → Execs Prog i (exited 1)
  program : (i code : ℕ) → Prog i code → Execs Prog i (exited code)
  signal : (i sig : ℕ) → Execs Prog i (killed sig)

abbrev pub Prog3Main : (ℕ → ℕ → Type 0) → System → Type 0
Prog3Main Prog s = Reach 2 (Execs Prog) s

abbrev pub ExecMain : (ℕ → ℕ → Type 0) → System → Type 0
ExecMain Prog s = Reach 2 (Execs Prog) s

-- bakery_client.c: a child exits with status 1 if its clnt_create fails, and else with 0.
pub data Visits : ℕ → Status → Type 0 where
  no_client : (i : ℕ) → Visits i (exited 1)
  visited : (i : ℕ) → Visits i (exited 0)
  signal : (i sig : ℕ) → Visits i (killed sig)

abbrev pub BakeryClientMain : System → Type 0
BakeryClientMain s = Reach 5 Visits s
