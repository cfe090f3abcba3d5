-- ===== src/Daemon/Instance.antt =====
-- os_lab_3/src/daemon.c from the return of `daemonize` on: the lock that lets one daemon run, the
-- thread that takes the signals, and `main`.
use os_5sem.Prelude.{ℕ, ◌≡◌, Bool, true, false, Option, none, some, ◌==◌, if◌then◌else◌}
use os_5sem.Prelude.Family.{update}

-- CONFFILE: not there, emptied, or with the user's number.
pub data Conf : Type 0 where
  absent emptied : Conf
  user : ℕ → Conf

-- What the processes share. `lock` is the process that has the write lock of LOCKFILE; `pid_file` is
-- the number that stands in it.
pub record Os : Type 0 where
  pub lock : Option ℕ
  pub pid_file : Option ℕ
  pub conf : Conf

pub data Signal : Type 0 where
  sighup sigterm another : Signal

-- Where a process stands.
pub data Pc : Type 0 where
  ready : Pc  -- already_running: open(LOCKFILE)
  opened : Pc  -- lockfile(fd)
  refused : Pc  -- already_running has returned 1
  claimed : Pc  -- ftruncate, and write of the process number
  numbered : Pc  -- open(CONFFILE) and ftruncate
  conf_opened : Pc  -- write of the user's number
  alone : Pc  -- already_running has returned 0; sigaction and pthread_sigmask
  masked : Pc  -- pthread_create
  removing : Pc  -- thr_fn of daemon_test.c between its two calls of remove
  serving : Bool → Pc  -- the loop of `main`; whether thr_fn runs beside it
  ended : ℕ → Pc

-- The locks of a process go with it.
abbrev pub leave : ℕ → Os → Os
leave pid o = record o {
  lock = elim o.lock [ none ↦ none | some p ↦ if p == pid then none else some p ];
}

-- fcntl(fd, F_SETLK, …): whether another process has the lock.
abbrev pub taken : ℕ → Os → Bool
taken pid o = elim o.lock [ none ↦ false | some p ↦ if p == pid then false else true ]

-- A process exits.
abbrev pub quit : ℕ → Os → ℕ → Os × Pc
quit pid o status = (leave pid o, ended status)

abbrev pub killed : ℕ → Os → Pc → Os × Pc
killed pid o (ended n) = (o, ended n)
killed pid o c = quit pid o 137

-- `already_running`: `ok` says whether the next call succeeds, and for write whether all is written.
unfoldable pub already_running : ℕ → ℕ → Bool → Os → Pc → Os × Pc
already_running pid uid ok o ready = if ok then (o, opened) else quit pid o 1
already_running pid uid ok o opened =
    if taken pid o
    then (o, refused)
    else if ok
    then (record o { lock = some pid }, claimed)
    else quit pid o 1
already_running pid uid ok o claimed =
    (record o { pid_file = if ok then some pid else none }, numbered)
already_running pid uid ok o numbered =
    if ok then (record o { conf = emptied }, conf_opened) else quit pid o 1
already_running pid uid ok o conf_opened =
    if ok then (record o { conf = user uid }, alone) else quit pid o 1
already_running pid uid ok o c = (o, c)

-- `thr_fn` with `reread`: a round for one signal. `ok` says whether fopen or remove succeeds.
unfoldable pub thr_fn : ℕ → Bool → Signal → Os → Os × Pc
thr_fn pid ok sighup o = if ok then (o, serving true) else quit pid o 1
thr_fn pid ok sigterm o = quit pid (if ok then record o { conf = absent } else o) 0
thr_fn pid ok another o = (o, serving true)

-- `main` behind `daemonize`. All signals that can be are blocked but for the thread, which takes
-- them; SIGKILL is a step of its own below. The result of pthread_create is compared
-- with -1, which it never returns.
unfoldable pub main : ℕ → ℕ → Bool → Signal → Os → Pc → Os × Pc
main pid uid ok signo o refused = quit pid o 1
main pid uid ok signo o alone = if ok then (o, masked) else quit pid o 1
main pid uid ok signo o masked = (o, serving ok)
main pid uid ok signo o (serving true) = thr_fn pid ok signo o
main pid uid ok signo o (serving false) = (o, serving false)
main pid uid ok signo o (ended n) = (o, ended n)
main pid uid ok signo o c = already_running pid uid ok o c

-- Any number of daemons are started; the index of a process is its number.
pub record System : Type 0 where
  pub os : Os
  pub pc : ℕ → Pc

abbrev pub Code : Type 0
Code = ℕ → ℕ → Bool → Signal → Os → Pc → Os × Pc

module _ (code : Code) (uid : ℕ → ℕ) where
  abbrev pub after : System → ℕ → Bool → Signal → System
  after s pid ok signo =
      let u = code pid (uid pid) ok signo s.os (s.pc pid) in
      record { os = u.0; pc = update s.pc pid u.1 }

  -- SIGKILL, which cannot be blocked, ends a process wherever it stands.
  abbrev pub kill : System → ℕ → System
  kill s pid = let u = killed pid s.os (s.pc pid) in record { os = u.0; pc = update s.pc pid u.1 }

  -- The states that can come about from a file system in which no process has the lock.
  pub data Reach : System → Type 0 where
    start : (o : Os) → o.lock ≡ none → Reach (record { os = o; pc = λ _. ready })
    later :
        {s : System}
        → Reach s
        → (pid : ℕ) (ok : Bool) (signo : Signal) → Reach (after s pid ok signo)
    kills : {s : System} → Reach s → (pid : ℕ) → Reach (kill s pid)
