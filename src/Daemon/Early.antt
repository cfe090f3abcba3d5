-- ===== src/Daemon/Early.antt =====
-- os_lab_3/src/daemon_get_tty.c, `already_running`, which writes CONFFILE before it asks for the lock.
-- The `main` of that file does not call it.
use os_5sem.Prelude.{
  ℕ, zero, suc, ◌≡◌, ◌≢◌, Bool, true, false, none, some, if◌then◌else◌, arith, ℕ_discrete, sym,
}
use os_5sem.Daemon.Instance.{
  Os, emptied, user, Pc, ready, opened, refused, claimed, numbered, conf_opened, alone, ended,
  taken, quit, killed, Code, System, Reach, start, later, kills,
}

unfoldable pub already_running : ℕ → ℕ → Bool → Os → Pc → Os × Pc
already_running pid uid ok o ready = if ok then (o, numbered) else quit pid o 1
already_running pid uid ok o numbered =
    if ok then (record o { conf = emptied }, conf_opened) else quit pid o 1
already_running pid uid ok o conf_opened =
    if ok then (record o { conf = user uid }, opened) else quit pid o 1
already_running pid uid ok o opened =
    if taken pid o
    then (o, refused)
    else if ok
    then (record o { lock = some pid }, claimed)
    else quit pid o 1
already_running pid uid ok o claimed =
    (record o { pid_file = if ok then some pid else none }, alone)
already_running pid uid ok o c = (o, c)

abbrev pub steps : ℕ → ℕ → ℕ → Os × Pc → Os × Pc
steps zero pid uid s = s
steps (suc k) pid uid s = steps k pid uid (already_running pid uid true s.0 s.1)

-- Where another process has the lock, a process whose calls succeed gets 1, and has by then put its own
-- user into CONFFILE in place of that of the daemon that runs.
pub early_overwrites :
    (pid uid p : ℕ) (o : Os)
    → o.lock ≡ some p
    → p ≢ pid
    → steps 4 pid uid (o, ready) ≡ (record o { conf = user uid }, refused)
unfolding already_running
early_overwrites pid uid p o e other = ground arith

abbrev pub code : Code
code pid uid ok signo o c = already_running pid uid ok o c

-- The places behind the lock.
abbrev pub holds : Pc → Bool
holds claimed = true
holds alone = true
holds _ = false

record Kept (pid : ℕ) (o : Os) (o' : Os) (c' : Pc) : Type 0 where
  keeps : holds c' ≡ true → o'.lock ≡ some pid
  spares : (p : ℕ) → p ≢ pid → o.lock ≡ some p → o'.lock ≡ some p

already_running-Kept :
    (pid uid : ℕ) (ok : Bool) (o : Os) (c : Pc)
    → (holds c ≡ true → o.lock ≡ some pid)
    → Kept pid o (already_running pid uid ok o c).0 (already_running pid uid ok o c).1
unfolding already_running
already_running-Kept pid uid ok o ready held = record {
  keeps = ground arith;
  spares = λ p other e. ground arith;
}
already_running-Kept pid uid ok o opened held = record {
  keeps = ground arith;
  spares = λ p other e. ground arith;
}
already_running-Kept pid uid ok o _ held = record {
  keeps = ground arith;
  spares = λ p other e. ground arith;
}

killed-Kept : (pid : ℕ) (o : Os) (c : Pc) → Kept pid o (killed pid o c).0 (killed pid o c).1
killed-Kept pid o (ended n) = record { keeps = λ h. cc h; spares = λ p other e. e }
killed-Kept pid o ready = record { keeps = λ h. cc h; spares = λ p other e. ground arith }
killed-Kept pid o _ = record { keeps = λ h. cc h; spares = λ p other e. ground arith }

module _ (uid : ℕ → ℕ) where
  Reach-locked :
      {s : System} → Reach code uid s → (i : ℕ) → holds (s.pc i) ≡ true → s.os.lock ≡ some i
  Reach-locked (start o free) i h = cc h
  Reach-locked (later {s} r pid ok signo) i h =
      let step = already_running-Kept pid (uid pid) ok s.os (s.pc pid) (Reach-locked r pid) in
      elim (ℕ_discrete pid i) [
        | yes it ↦ ground (arith, step.keeps)
        | no other ↦ step.spares i (λ e. other (sym e)) (Reach-locked r i (ground arith))
      ]
  Reach-locked (kills {s} r pid) i h =
      let step = killed-Kept pid s.os (s.pc pid) in
      elim (ℕ_discrete pid i) [
        | yes it ↦ ground (arith, step.keeps)
        | no other ↦ step.spares i (λ e. other (sym e)) (Reach-locked r i (ground arith))
      ]

  -- However many processes call `already_running`, and however their steps and their failing calls
  -- interleave, at most one of them is told that it is alone.
  pub early_single :
      {s : System}
      → Reach code uid s
      → (i j : ℕ) → holds (s.pc i) ≡ true
      → holds (s.pc j) ≡ true
      → i ≡ j
  early_single r i j hi hj = cc (Reach-locked r i hi, Reach-locked r j hj)
