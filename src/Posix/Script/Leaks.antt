-- ===== src/Posix/Script/Leaks.antt =====
-- Scripts that stop in the middle: what is left of the set of semaphores.
use os_5sem.Prelude.{
  ℕ, ◌+◌, ◌≡◌, ◌≢◌, refl, Bool, true, false, List, [], ◌∷◌, ◌++◌, Option, none, some, if◌then◌else◌,
  Bool-cases, inl, inr, arith,
}
use os_5sem.Posix.Semop.{Sems, setval}
use os_5sem.Posix.Script.{
  Call, signal, semget, sem_set, sem_rm, sem_sets, waitpid, pmap_unset, Host, set_sems, report,
  effect, fails, run,
}

-- The calls that remove the set of semaphores, and the first of those that can.
abbrev pub removes_sems : Call → Bool
removes_sems sem_rm = true
removes_sems _ = false

abbrev pub keeps_sems : List Call → Bool
keeps_sems [] = true
keeps_sems (c ∷ cs) = if removes_sems c then false else keeps_sems cs

set_sems-some : (nvs : List (ℕ × ℕ)) (o : Option Sems) → o ≢ none → set_sems nvs o ≢ none
set_sems-some [] o h = h
set_sems-some ((n, v) ∷ nvs) none h = absurd (h refl)
set_sems-some ((n, v) ∷ nvs) (some s) h = set_sems-some nvs (some (setval n v s)) (λ e. cc)

effect-sems :
    (found : Sems) (c : Call) (h : Host)
    → removes_sems c ≡ false
    → h.sems ≢ none
    → (effect found c h).sems ≢ none
unfolding report
effect-sems found (sem_sets nvs) h keeps s = set_sems-some nvs h.sems s
effect-sems found (sem_set n v) h keeps s = set_sems-some ((n, v) ∷ []) h.sems s
effect-sems found waitpid h keeps s = ground (arith, s)
effect-sems found semget h keeps s = λ e. cc
effect-sems found signal h keeps s = s
effect-sems found _ h keeps s = ground (arith, s)

-- A script without sem_rm leaves the set, wherever it stops.
pub run-keeps :
    (ok : ℕ → Bool) (found : Sems) (n : ℕ) (cs : List Call) (h : Host)
    → keeps_sems cs ≡ true
    → h.sems ≢ none
    → (run ok found n cs h).1.sems ≢ none
unfolding run
run-keeps ok found n [] h keeps s = s
run-keeps ok found n (c ∷ cs) h keeps s =
    let one : removes_sems c ≡ false = ground arith in
    let rest : keeps_sems cs ≡ true = ground arith in
    ground (
      arith,
      s,
      run-keeps ok found (n + 1) cs (effect found c h) rest (effect-sems found c h one s),
    )

-- A script that stops in its first part does not come to the rest.
pub run-append :
    (ok : ℕ → Bool) (found : Sems) (n : ℕ) (cs ds : List Call) (h : Host)
    → (run ok found n cs h).0 ≢ 0
    → run ok found n (cs ++ ds) h ≡ run ok found n cs h
unfolding run
run-append ok found n [] ds h bad = absurd (bad refl)
run-append ok found n (c ∷ cs) ds h bad = elim (Bool-cases (fails ok n c)) [
  | inl failed ↦ rw failed refl
  | inr passed ↦ rw passed (run-append ok found (n + 1) cs ds (effect found c h) (rw passed at bad))
]

-- A call that succeeds is passed.
pub run-passes :
    (ok : ℕ → Bool) (found : Sems) (n : ℕ) (c : Call) (cs : List Call) (h : Host)
    → ok n ≡ true
    → run ok found n (c ∷ cs) h ≡ run ok found (n + 1) cs (effect found c h)
unfolding run
run-passes ok found n c cs h fine = ground (arith, fine)

-- A script that finds or makes the set with its second call and does not remove it leaves it.
pub run-leaves :
    (ok : ℕ → Bool) (found : Sems) (n : ℕ) (c : Call) (cs : List Call) (h : Host)
    → ok n ≡ true
    → ok (n + 1) ≡ true
    → keeps_sems cs ≡ true
    → (run ok found n (c ∷ semget ∷ cs) h).1.sems ≢ none
run-leaves ok found n c cs h first second keeps =
    rw
      (
        run-passes ok found n c (semget ∷ cs) h first,
        run-passes ok found (n + 1) semget cs (effect found c h) second,
      )
      (run-keeps ok found (n + 1 + 1) cs (effect found semget (effect found c h)) keeps (λ e. cc))

pub run-unset :
    (ok : ℕ → Bool) (found : Sems) (n : ℕ) (cs : List Call) (h : Host)
    → run ok found n (pmap_unset ∷ cs) h ≡ run ok found (n + 1) cs h
unfolding run
run-unset ok found n cs h = refl
