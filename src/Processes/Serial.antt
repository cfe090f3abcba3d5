-- ===== src/Processes/Serial.antt =====
-- os_lab_2/prog2.c: a process that waits for each child before it forks the next one; the second child
-- does not end by itself.
mod Examples
use os_5sem.Prelude.{
  ℕ, zero, suc, ◌+◌, ◌≤◌, ◌<◌, ◌≡◌, ◌≢◌, ◌⊎◌, refl, sym, ap, ◌∙◌, List, [], ◌∷◌, ◌++◌, arith,
  ℕ_discrete, inl, inr,
}
use mathlib.Core.Path.{subst}
use os_5sem.Prelude.Family.{update}
use os_5sem.Processes.{Status, exited, killed}
use os_5sem.Processes.Count.{
  Child, unborn, running, zombie, reaped, Children, update_at, update_off, update_ind,
}
use os_5sem.Processes.ForkWait.{Main, forking, waiting, done, System, at_start}

-- How the children may end: `exited 0` for the first one, and by a signal.
pub data Ends : ℕ → Status → Type 0 where
  returns : (i : ℕ) → i ≢ 1 → Ends i (exited 0)
  signal : (i sig : ℕ) → Ends i (killed sig)

pub data Reach (n : ℕ) : System → Type 0 where
  start : Reach n at_start
  forks :
      {s : System} (i : ℕ)
      → Reach n s
      → s.main ≡ forking i
      → i < n
      → Reach n (record s { main = waiting i; child = update s.child i running })
  fork_fails :
      {s : System} (i : ℕ)
      → Reach n s
      → s.main ≡ forking i
      → i < n
      → Reach n (record s { main = done 1 })
  ends :
      {s : System} (i : ℕ) (st : Status)
      → Reach n s
      → s.child i ≡ running
      → Ends i st
      → Reach n (record s { child = update s.child i (zombie st) })
  waits :
      {s : System} (k i : ℕ) (st : Status)
      → Reach n s
      → s.main ≡ waiting k
      → s.child i ≡ zombie st
      → Reach n (record {
        main = forking (k + 1);
        child = update s.child i (reaped st);
        printed = s.printed ++ (i, st) ∷ [];
      })
  wait_fails :
      {s : System} (k : ℕ) → Reach n s → s.main ≡ waiting k → Reach n (record s { main = done 1 })
  all_done : {s : System} → Reach n s → s.main ≡ forking n → Reach n (record s { main = done 0 })

abbrev pub Prog2Main : System → Type 0
Prog2Main s = Reach 2 s

-- The reports of the first children, in order.
abbrev Told : ℕ → List (ℕ × Status) → Type 0
Told zero xs = xs ≡ []
Told (suc i) xs =
    (ys : List (ℕ × Status)) × (st : Status) × (xs ≡ ys ++ (i, st) ∷ []) × Told i ys × Ends i st

abbrev AtWork : ℕ → Child → Type 0
AtWork i running = Unit {0}
AtWork i (zombie st) = Ends i st
AtWork i _ = ⊥

abbrev IsIdle : Child → Type 0
IsIdle running = ⊥
IsIdle (zombie st) = ⊥
IsIdle _ = Unit {0}

abbrev Place : ℕ → Main → Children → List (ℕ × Status) → Type 0
Place n (forking i) c xs = ((j : ℕ) → IsIdle (c j)) × Told i xs
Place n (waiting i) c xs = AtWork i (c i) × ((j : ℕ) → j ≢ i → IsIdle (c j)) × Told i xs
Place n (done zero) c xs = Told n xs
Place n (done (suc code)) c xs = Unit {0}

not_running : (c : Child) → c ≡ running → IsIdle c → ⊥
not_running c e idle = subst IsIdle e idle

not_zombie : (c : Child) (st : Status) → c ≡ zombie st → IsIdle c → ⊥
not_zombie c st e idle = subst IsIdle e idle

Place-ends :
    (n : ℕ) (m : Main) (c : Children) (i : ℕ) (st : Status) (xs : List (ℕ × Status))
    → c i ≡ running
    → Ends i st
    → Place n m c xs
    → Place n m (update c i (zombie st)) xs
Place-ends n (forking k) c i st xs up may (idle, told) = absurd (not_running (c i) up (idle i))
Place-ends n (waiting k) c i st xs up may (work, idle, told) = elim (ℕ_discrete i k) [
  | yes it ↦ (
    rw (update_at c i k (zombie st) it) (subst (λ j. Ends j st) it may),
    λ j off. rw (update_off c i j (zombie st) (λ e. off (sym e ∙ it))) (idle j off),
    told,
  )
  | no other ↦ absurd (not_running (c i) up (idle i other))
]
Place-ends n (done zero) c i st xs up may told = told
Place-ends n (done (suc code)) c i st xs up may told = tt

-- The child that wait takes is the one that was forked last.
worked :
    (c : Children) (i k : ℕ) (st : Status)
    → c i ≡ zombie st
    → AtWork k (c k)
    → ((j : ℕ) → j ≢ k → IsIdle (c j))
    → (i ≡ k) × Ends i st
worked c i k st over work idle = elim (ℕ_discrete i k) [
  | yes it ↦ (it, subst (AtWork i) over (subst (λ j. AtWork j (c j)) (sym it) work))
  | no other ↦ absurd (not_zombie (c i) st over (idle i other))
]

more_reports :
    (k k' i : ℕ) (st : Status) (xs : List (ℕ × Status))
    → i ≡ k
    → k' ≡ suc k
    → Told k xs
    → Ends i st
    → Told k' (xs ++ (i, st) ∷ [])
more_reports k k' i st xs it next told may =
    rw next (xs, st, ap (λ j. xs ++ (j, st) ∷ []) it, told, subst (λ j. Ends j st) it may)

module _ (n : ℕ) where
  Place-at :
      (s : System) (m : Main)
      → s.main ≡ m
      → Place n s.main s.child s.printed
      → Place n m s.child s.printed
  Place-at s m e p = subst (λ x. Place n x s.child s.printed) e p

  Reach-Place : {s : System} → Reach n s → Place n s.main s.child s.printed
  Reach-Place start = (λ j. tt, refl)
  Reach-Place (forks {s} i r at low) =
      let (idle, told) = Place-at s (forking i) at (Reach-Place r) in
      (
        rw (update_at s.child i i running refl) tt,
        λ j off. rw (update_off s.child i j running (λ e. off (sym e))) (idle j),
        told,
      )
  Reach-Place (fork_fails i r at low) = tt
  Reach-Place (ends {s} i st r up may) =
      Place-ends n s.main s.child i st s.printed up may (Reach-Place r)
  Reach-Place (waits {s} k i st r at over) =
      let (work, idle, told) = Place-at s (waiting k) at (Reach-Place r) in
      let (it, may) = worked s.child i k st over work idle in
      (
        update_ind (λ j x. IsIdle x) s.child i (reaped st) tt
            (λ j off. idle j (λ e. off (it ∙ sym e))),
        more_reports k (k + 1) i st s.printed it (omega arith) told may,
      )
  Reach-Place (wait_fails k r at) = tt
  Reach-Place (all_done {s} r at) = (Place-at s (forking n) at (Reach-Place r)).1

how_zero : (st : Status) → Ends 0 st → (st ≡ exited 0) ⊎ ((sig : ℕ) × (st ≡ killed sig))
how_zero st (returns _ _) = inl refl
how_zero st (signal _ sig) = inr (sig, refl)

how_one : (i : ℕ) (st : Status) → i ≡ 1 → Ends i st → (sig : ℕ) × (st ≡ killed sig)
how_one i st one (returns _ other) = absurd (other one)
how_one i st one (signal _ sig) = (sig, refl)

-- If the program ends with status 0 then its second child was killed by a signal. It has printed one
-- report of each child, that of the first one first.
pub prog2_ends :
    (s : System)
    → Prog2Main s
    → s.main ≡ done 0
    → (st : Status) × (sig : ℕ) × (s.printed ≡ (0, st) ∷ (1, killed sig) ∷ [])
      × ((st ≡ exited 0) ⊎ ((sig0 : ℕ) × (st ≡ killed sig0)))
prog2_ends s r at =
    let (ys, st1, e1, (zs, st0, e0, e, may0), may1) = Place-at 2 s (done 0) at (Reach-Place 2 r) in
    let (sig, how) = how_one 1 st1 refl may1 in
    (st0, sig, e1 ∙ rw (e0, e, how) refl, how_zero st0 may0)
