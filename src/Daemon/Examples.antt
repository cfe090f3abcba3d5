-- ===== src/Daemon/Examples.antt =====
-- The daemon runs: the theorems about it at concrete states.
use os_5sem.Prelude.{ℕ, ◌≡◌, refl, true, false, none, some, if◌then◌else◌, ltb, arith, ℕ_discrete}
use os_5sem.Daemon.Descriptors.{
  Process, Calls, child, inherited, dev_null, goes_on, daemonize, daemonize_total,
}
use os_5sem.Daemon.Instance.{
  Os, absent, another, ready, serving, already_running, main, System, Reach, start, later, after,
}
use os_5sem.Daemon.Single.{daemon_single}
use os_5sem.Daemon.Closing.{two_serve, main as closing_main}

-- A process with a terminal on its descriptors 0 to 2 and a file on 5.
abbrev from_shell : Process
from_shell = record {
  umask = 18;
  leads_session = false;
  ignores_hup = false;
  at_root = false;
  files = λ fd.
      if ltb fd 3
      then some inherited
      else if ltb fd 5
      then none
      else if ltb fd 6
      then some inherited
      else none;
}

abbrev all_well : Calls
all_well = record {
  limit = some (some 20);
  fork = child;
  setsid_ok = true;
  sigaction_ok = true;
  chdir_ok = true;
  open_ok = true;
  max_open = 20;
}

daemonize_total_example :
    (q : Process) × (daemonize all_well from_shell ≡ goes_on q)
    × ((fd : ℕ) → q.files fd ≡ (if ltb fd 3 then some dev_null else none))
daemonize_total_example =
    daemonize_total all_well from_shell (some 20) refl refl (refl, refl, refl, refl) (omega arith)
      (λ fd high. ground arith)

-- LOCKFILE with an old number, and no lock.
abbrev booted : Os
booted = record { lock = none; pid_file = some 77; conf = absent }

abbrev users : ℕ → ℕ
users _ = 1000

-- Process 3 takes the lock, and writes its number; process 4 comes to the lock.
abbrev s0 : System
s0 = record { os = booted; pc = λ _. ready }

abbrev s3 : System
s3 =
    after main users (after main users (after main users s0 3 true another) 3 true another) 3 true
      another

s3_reached : Reach main users s3
s3_reached = later (later (later (start booted refl) 3 true another) 3 true another) 3 true another

daemon_single_example : ◌≡◌ {A = ℕ} 3 3
unfolding main already_running ℕ_discrete
daemon_single_example = daemon_single users s3_reached 3 3 refl refl

two_serve_example :
    (s : System) × Reach closing_main users s × (s.pc 3 ≡ serving true) × (s.pc 4 ≡ serving true)
two_serve_example = two_serve users booted 3 4 refl (omega arith)
