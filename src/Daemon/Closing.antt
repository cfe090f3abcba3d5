-- ===== src/Daemon/Closing.antt =====
-- os_lab_3/src/daemon_test.c: the daemon closes the descriptor of LOCKFILE once its number is written,
-- and with it gives the lock back.
use os_5sem.Prelude.{
  ℕ, ◌≡◌, ◌≢◌, ◌∙◌, refl, Bool, true, false, none, some, if◌then◌else◌, arith, sym, ap,
}
use mathlib.Core.Path.{subst}
use os_5sem.Prelude.Family.{update}
use os_5sem.Daemon.Descriptors.{dev_null, Calls, Outcome, Process, daemonize_on}
use os_5sem.Daemon.Instance.{
  Os, absent, emptied, user, Signal, sighup, sigterm, another, Pc, ready, opened, refused, claimed,
  numbered, conf_opened, alone, masked, removing, serving, ended, taken, leave, quit, System, Reach,
  start, later,
}

-- The same calls as those of daemon.c.
abbrev pub daemonize : Calls → Process → Outcome
daemonize c p = daemonize_on dev_null c p

unfoldable pub already_running : ℕ → ℕ → Bool → Os → Pc → Os × Pc
already_running pid uid ok o ready = if ok then (o, opened) else quit pid o 1
already_running pid uid ok o opened =
    if taken pid o
    then (o, refused)
    else if ok
    then (record o { lock = some pid }, claimed)
    else quit pid o 1
already_running pid uid ok o claimed =
    (leave pid (record o { pid_file = if ok then some pid else none }), numbered)
already_running pid uid ok o numbered =
    if ok then (record o { conf = emptied }, conf_opened) else quit pid o 1
already_running pid uid ok o conf_opened =
    if ok then (record o { conf = user uid }, alone) else quit pid o 1
already_running pid uid ok o c = (o, c)

-- `thr_fn`: SIGTERM removes LOCKFILE too, and with it a lock on it, and then CONFFILE.
unfoldable pub thr_fn : ℕ → Bool → Signal → Os → Os × Pc
thr_fn pid ok sighup o = if ok then (o, serving true) else quit pid o 1
thr_fn pid ok sigterm o = (if ok then record o { lock = none; pid_file = none } else o, removing)
thr_fn pid ok another o = (o, serving true)

unfoldable pub main : ℕ → ℕ → Bool → Signal → Os → Pc → Os × Pc
main pid uid ok signo o refused = quit pid o 1
main pid uid ok signo o alone = if ok then (o, masked) else quit pid o 1
main pid uid ok signo o masked = (o, serving ok)
main pid uid ok signo o (serving true) = thr_fn pid ok signo o
main pid uid ok signo o removing = quit pid (if ok then record o { conf = absent } else o) 0
main pid uid ok signo o (serving false) = (o, serving false)
main pid uid ok signo o (ended n) = (o, ended n)
main pid uid ok signo o c = already_running pid uid ok o c

module _ (uid : ℕ → ℕ) where
  -- A successful step.
  step_to :
      (i : ℕ) (o : Os) (pc : ℕ → Pc) (c : Pc) (o' : Os) (c' : Pc)
      → Reach main uid (record { os = o; pc = pc })
      → pc i ≡ c
      → main i (uid i) true another o c ≡ (o', c')
      → Reach main uid (record { os = o'; pc = update pc i c' })
  step_to i o pc c o' c' r e f =
      subst (λ (u : Os × Pc). Reach main uid (record { os = u.0; pc = update pc i u.1 }))
        (ap (main i (uid i) true another o) e ∙ f) (later r i true another)

  here : (pc : ℕ → Pc) (i : ℕ) (c : Pc) → update pc i c i ≡ c
  here pc i c = ground arith

  -- A daemon that is started while no process has the lock comes to serve, and leaves the lock free.
  to_serve :
      (i : ℕ) (o : Os) (pc : ℕ → Pc)
      → Reach main uid (record { os = o; pc = pc })
      → o.lock ≡ none
      → pc i ≡ ready
      → (o' : Os) × (pc' : ℕ → Pc) × Reach main uid (record { os = o'; pc = pc' })
        × (o'.lock ≡ none)
        × (pc' i ≡ serving true)
        × ((d : ℕ) → d ≢ i → pc' d ≡ pc d)
  unfolding main already_running
  to_serve i o pc r free e =
      let pc1 = update pc i opened in
      let r1 = step_to i o pc ready o opened r e refl in
      let o2 = record o { lock = some i } in
      let pc2 = update pc1 i claimed in
      let r2 = step_to i o pc1 opened o2 claimed r1 (here pc i opened) (ground arith) in
      let o3 = record o { lock = none; pid_file = some i } in
      let pc3 = update pc2 i numbered in
      let r3 = step_to i o2 pc2 claimed o3 numbered r2 (here pc1 i claimed) (ground arith) in
      let o4 = record o3 { conf = emptied } in
      let pc4 = update pc3 i conf_opened in
      let r4 = step_to i o3 pc3 numbered o4 conf_opened r3 (here pc2 i numbered) refl in
      let o5 = record o3 { conf = user (uid i) } in
      let pc5 = update pc4 i alone in
      let r5 = step_to i o4 pc4 conf_opened o5 alone r4 (here pc3 i conf_opened) refl in
      let pc6 = update pc5 i masked in
      let r6 = step_to i o5 pc5 alone o5 masked r5 (here pc4 i alone) refl in
      let pc7 = update pc6 i (serving true) in
      let r7 = step_to i o5 pc6 masked o5 (serving true) r6 (here pc5 i masked) refl in
      (o5, pc7, r7, refl, here pc6 i (serving true), λ d other. ground arith)

  -- Any two daemons can come to serve at the same time, from every file system without a lock.
  pub two_serve :
      (o : Os) (i j : ℕ)
      → o.lock ≡ none
      → i ≢ j
      → (s : System) × Reach main uid s × (s.pc i ≡ serving true) × (s.pc j ≡ serving true)
  two_serve o i j free other =
      let (o1, pc1, r1, free1, at_i, kept1) = to_serve i o (λ _. ready) (start o free) free refl in
      let (o2, pc2, r2, free2, at_j, kept2) =
        to_serve j o1 pc1 r1 free1 (kept1 j (λ e. other (sym e))) in
      (record { os = o2; pc = pc2 }, r2, kept2 i other ∙ at_i, at_j)
