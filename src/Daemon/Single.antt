-- ===== src/Daemon/Single.antt =====
-- os_lab_3/src/daemon.c: at most one daemon runs.
use os_5sem.Prelude.{ℕ, ◌≡◌, ◌≢◌, ◌⊎◌, refl, Bool, true, false, none, some, arith, ℕ_discrete, sym}
use os_5sem.Prelude.Family.{update}
use os_5sem.Daemon.Instance.{
  Os, Signal, sighup, sigterm, another, Pc, ready, opened, refused, claimed, numbered, conf_opened,
  alone, masked, serving, ended, already_running, thr_fn, main, killed, System, Reach, start, later,
  kills,
}

-- The places from the lock on, and those from the write of the number on.
abbrev pub holds : Pc → Bool
holds claimed = true
holds numbered = true
holds conf_opened = true
holds alone = true
holds masked = true
holds (serving _) = true
holds _ = false

abbrev pub has_written : Pc → Bool
has_written claimed = false
has_written c = holds c

-- What a step of one process does to the lock and the number in LOCKFILE.
record Stepped (pid : ℕ) (o : Os) (c : Pc) (o' : Os) (c' : Pc) : Type 0 where
  keeps : holds c' ≡ true → o'.lock ≡ some pid
  spares : (p : ℕ) → p ≢ pid → o.lock ≡ some p → (o'.lock ≡ some p) × (o'.pid_file ≡ o.pid_file)
  writes : has_written c' ≡ true → (o'.pid_file ≡ some pid) ⊎ (o'.pid_file ≡ none)

main_lem :
    (pid uid : ℕ) (ok : Bool) (signo : Signal) (o : Os) (c : Pc)
    → (holds c ≡ true → o.lock ≡ some pid)
    → (has_written c ≡ true → (o.pid_file ≡ some pid) ⊎ (o.pid_file ≡ none))
    → Stepped pid o c (main pid uid ok signo o c).0 (main pid uid ok signo o c).1
unfolding main already_running thr_fn
main_lem pid uid ok signo o ready held w = record {
  keeps = ground arith;
  spares = λ p other e. ground arith;
  writes = ground arith;
}
main_lem pid uid ok signo o opened held w = record {
  keeps = ground arith;
  spares = λ p other e. ground arith;
  writes = ground arith;
}
main_lem pid uid ok sighup o (serving true) held w = record {
  keeps = ground arith;
  spares = λ p other e. ground arith;
  writes = ground arith;
}
main_lem pid uid ok sigterm o (serving true) held w = record {
  keeps = ground arith;
  spares = λ p other e. ground arith;
  writes = ground arith;
}
main_lem pid uid ok another o (serving true) held w = record {
  keeps = ground arith;
  spares = λ p other e. ground arith;
  writes = ground arith;
}
main_lem pid uid ok signo o _ held w = record {
  keeps = ground arith;
  spares = λ p other e. ground arith;
  writes = ground arith;
}

-- A process behind the lock has it, and LOCKFILE has its number, or nothing if the write failed.
record Inv (s : System) : Type 0 where
  locked : (i : ℕ) → holds (s.pc i) ≡ true → s.os.lock ≡ some i
  marked : (i : ℕ) → has_written (s.pc i) ≡ true → (s.os.pid_file ≡ some i) ⊎ (s.os.pid_file ≡ none)

has_written-holds : (c : Pc) → has_written c ≡ true → holds c ≡ true
has_written-holds claimed h = cc
has_written-holds ready h = h
has_written-holds _ h = h

killed_lem :
    (pid : ℕ) (o : Os) (c : Pc)
    → (holds c ≡ true → o.lock ≡ some pid)
    → Stepped pid o c (killed pid o c).0 (killed pid o c).1
killed_lem pid o (ended n) held = record {
  keeps = λ h. cc h;
  spares = λ p other e. (e, refl);
  writes = λ h. cc h;
}
killed_lem pid o ready held = record {
  keeps = λ h. cc h;
  spares = λ p other e. ground arith;
  writes = λ h. cc h;
}
killed_lem pid o _ held = record {
  keeps = λ h. cc h;
  spares = λ p other e. ground arith;
  writes = λ h. cc h;
}

-- A step of one process keeps it.
Inv-step :
    {s : System} (pid : ℕ) (o : Os) (c : Pc)
    → Inv s
    → Stepped pid s.os (s.pc pid) o c
    → Inv (record { os = o; pc = update s.pc pid c })
Inv-step {s} pid o c inv step = record {
  locked = λ i h. elim (ℕ_discrete pid i) [
    | yes it ↦ ground (arith, step.keeps)
    | no other ↦
        let had : holds (s.pc i) ≡ true = ground arith in
        (step.spares i (λ e. other (sym e)) (inv.locked i had)).0
  ];
  marked = λ i h. elim (ℕ_discrete pid i) [
    | yes it ↦ ground (arith, step.writes)
    | no other ↦
        let had : has_written (s.pc i) ≡ true = ground arith in
        let kept =
          step.spares i (λ e. other (sym e)) (inv.locked i (has_written-holds (s.pc i) had)) in
        ground (arith, kept, inv.marked i had)
  ];
}

module _ (uid : ℕ → ℕ) where
  Reach-Inv : {s : System} → Reach main uid s → Inv s
  Reach-Inv (start o free) = record { locked = λ i h. cc; marked = λ i h. cc }
  Reach-Inv (later {s} r pid ok signo) =
      let inv = Reach-Inv r in
      let u = main pid (uid pid) ok signo s.os (s.pc pid) in
      Inv-step pid u.0 u.1 inv
        (main_lem pid (uid pid) ok signo s.os (s.pc pid) (inv.locked pid) (inv.marked pid))
  Reach-Inv (kills {s} r pid) =
      let inv = Reach-Inv r in
      let u = killed pid s.os (s.pc pid) in
      Inv-step pid u.0 u.1 inv (killed_lem pid s.os (s.pc pid) (inv.locked pid))

  -- From a file system in which no process has the lock: however many daemons are started, and
  -- however their steps and their failing calls interleave, and whichever are killed, at most one of them stands behind the
  -- lock.
  pub daemon_single :
      {s : System}
      → Reach main uid s
      → (i j : ℕ) → holds (s.pc i) ≡ true
      → holds (s.pc j) ≡ true
      → i ≡ j
  daemon_single r i j hi hj = let inv = Reach-Inv r in cc (inv.locked i hi, inv.locked j hj)

  -- While a daemon serves, LOCKFILE has its number, or is empty because the number could not be
  -- written.
  pub daemon_pid_file :
      {s : System}
      → Reach main uid s
      → (i : ℕ) → has_written (s.pc i) ≡ true
      → (s.os.pid_file ≡ some i) ⊎ (s.os.pid_file ≡ none)
  daemon_pid_file r i h = (Reach-Inv r).marked i h

-- A daemon that comes to the lock while another one has it exits with status 1, and leaves LOCKFILE,
-- CONFFILE and the lock as they are.
pub daemon_refused :
    (pid uid p : ℕ) (ok : Bool) (signo : Signal) (o : Os)
    → o.lock ≡ some p
    → p ≢ pid
    → (main pid uid ok signo o opened ≡ (o, refused))
      × (main pid uid ok signo o refused ≡ (o, ended 1))
unfolding main already_running
daemon_refused pid uid p ok signo o e other = ground arith
