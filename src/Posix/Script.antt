-- ===== src/Posix/Script.antt =====
-- The `main` functions as scripts: the system calls that they make, in order, each of which may
-- fail; on a failure the program prints a message and exits with status 1. The calls themselves are
-- those of POSIX, as it documents them.
pub mod Leaks
pub mod Registration
use os_5sem.Prelude.{
  ℕ, zero, suc, ◌+◌, ◌≡◌, ◌≢◌, refl, Bool, true, false, List, [], ◌∷◌, ◌++◌, Option, none, some,
  if◌then◌else◌, replicate, length, not, ◌&&◌, Bool-cases, inl, inr, ap, arith,
}
use os_5sem.Posix.Semop.{Sems, setval}

pub data Role : Type 0 where
  writer reader producer consumer : Role

-- What waitpid(-1, …, WUNTRACED | WCONTINUED) reports of a child.
pub data Report : Type 0 where
  exited killed stopped continued : Report

pub data Call : Type 0 where
  signal ftok shmget shmat shmdt shm_rm : Call
  alloc : Call  -- malloc or calloc
  semget : Call  -- the set is created, or found with the values that it had
  sem_set : ℕ → ℕ → Call  -- semctl(semid, n, SETVAL, v)
  sem_rm : Call
  store : ℕ → Call  -- no call: *buf = c
  fork : Role → Call
  sem_sets : List (ℕ × ℕ) → Call  -- a function of several SETVAL calls that fails if one does
  waitpid : Call
  wait_end : Call  -- waitpid(pid, …, 0): no report but of the child's end
  -- the calls of the RPC library: the result of pmap_unset is not looked at, and svc_run returns
  pmap_unset svc_create svc_register svc_run : Call

-- What the calls of one `main` have brought about.
pub record Host : Type 0 where
  pub segment : Bool  -- the shared memory exists
  pub attached : Bool
  pub letter : ℕ  -- its first character
  pub sems : Option Sems
  pub children : List Role  -- forked, the last one first
  pub ended : ℕ  -- children whose end was reported
  pub reports : List Report  -- still to come
  pub registered : ℕ  -- transports on which the service can be called

abbrev pub ends : Report → Bool
ends exited = true
ends killed = true
ends _ = false

unfoldable pub report : Host → Host
report h = elim h.reports [
  | [] ↦ h
  | r ∷ rs ↦ record h { reports = rs; ended = if ends r then h.ended + 1 else h.ended }
]

abbrev pub set_sem : ℕ → ℕ → Option Sems → Option Sems
set_sem n v none = none
set_sem n v (some s) = some (setval n v s)

abbrev pub set_sems : List (ℕ × ℕ) → Option Sems → Option Sems
set_sems [] s = s
set_sems ((n, v) ∷ nvs) s = set_sems nvs (set_sem n v s)

-- A call that succeeds. `found` are the values of the set that semget finds.
abbrev pub effect : Sems → Call → Host → Host
effect found shmget h = record h { segment = true }
effect found shmat h = record h { attached = true }
effect found shmdt h = record h { attached = false }
effect found shm_rm h = record h { segment = false }
effect found semget h = record h { sems = some found }
effect found (sem_set n v) h = record h { sems = set_sem n v h.sems }
effect found sem_rm h = record h { sems = none }
effect found (store c) h = record h { letter = c }
effect found (fork r) h = record h { children = r ∷ h.children }
effect found (sem_sets nvs) h = record h { sems = set_sems nvs h.sems }
effect found waitpid h = report h
effect found wait_end h = record h { ended = h.ended + 1 }
effect found svc_register h = record h { registered = h.registered + 1 }
effect found _ h = h

abbrev pub effects : Sems → List Call → Host → Host
effects found [] h = h
effects found (c ∷ cs) h = effects found cs (effect found c h)

abbrev pub may_fail : Call → Bool
may_fail (store _) = false
may_fail pmap_unset = false
may_fail svc_run = false
may_fail _ = true

abbrev pub fails : (ℕ → Bool) → ℕ → Call → Bool
fails ok n c = may_fail c && not (ok n)

-- The run of a script whose `n`-th statement succeeds if `ok n` says so: the exit status, and what
-- is there then.
pub run : (ℕ → Bool) → Sems → ℕ → List Call → Host → ℕ × Host
run ok found n [] h = (0, h)
run ok found n (c ∷ cs) h =
    let rest = run ok found (n + 1) cs (effect found c h) in if fails ok n c then (1, h) else rest

-- Before the first call.
abbrev pub fresh : List Report → Host
fresh reports = record {
  segment = false;
  attached = false;
  letter = 0;
  sems = none;
  children = [];
  ended = 0;
  reports = reports;
  registered = 0;
}

-- If every call succeeds the script ends with status 0 and all its effects.
pub run-effects :
    (ok : ℕ → Bool) (found : Sems) (n : ℕ) (cs : List Call) (h : Host)
    → ((k : ℕ) → ok k ≡ true)
    → run ok found n cs h ≡ (0, effects found cs h)
unfolding run
run-effects ok found n [] h all = refl
run-effects ok found n (c ∷ cs) h all =
    ground (arith, all n, run-effects ok found (n + 1) cs (effect found c h) all)

-- A script that exits with status 1 leaves what the calls before the failed one have brought about.
pub run-stops :
    (ok : ℕ → Bool) (found : Sems) (n : ℕ) (cs : List Call) (h : Host)
    → (run ok found n cs h).0 ≢ 0
    → (before : List Call) × (c : Call) × (after : List Call) × (cs ≡ before ++ c ∷ after)
      × ((run ok found n cs h).1 ≡ effects found before h)
unfolding run
run-stops ok found n [] h bad = absurd (bad refl)
run-stops ok found n (c ∷ cs) h bad = elim (Bool-cases (fails ok n c)) [
  | inl failed ↦ ([], c, cs, refl, rw failed)
  | inr passed ↦
      let (before, c', after, e, q) =
        run-stops ok found (n + 1) cs (effect found c h) (rw passed at bad) in
      (c ∷ before, c', after, ap (λ l. c ∷ l) e, rw passed q)
]

pub effects-append :
    (found : Sems) (cs ds : List Call) (h : Host)
    → effects found (cs ++ ds) h ≡ effects found ds (effects found cs h)
effects-append found [] ds h = refl
effects-append found (c ∷ cs) ds h = effects-append found cs ds (effect found c h)

-- How many of the reports are of an end.
unfoldable pub count_ends : List Report → ℕ
count_ends [] = 0
count_ends (r ∷ rs) = if ends r then 1 + count_ends rs else count_ends rs

-- The loop that waits takes one report a round, and counts those of an end.
pub effects-waitpid :
    (found : Sems) (k : ℕ) (rs : List Report) (h : Host)
    → h.reports ≡ rs
    → length rs ≡ k
    → effects found (replicate k waitpid) h
      ≡ record h { reports = []; ended = h.ended + count_ends rs }
unfolding count_ends report
effects-waitpid found zero [] h e size = ground arith
effects-waitpid found zero (r ∷ rs) h e size = absurd (omega arith)
effects-waitpid found (suc k) [] h e size = absurd (omega arith)
effects-waitpid found (suc k) (r ∷ rs) h e size =
    ground (arith, effects-waitpid found k rs (report h))

-- The `main` of a server ends with status 1, whether a call fails or svc_run returns.
unfoldable pub service : (ℕ → Bool) → Sems → List Call → ℕ × Host
service ok found cs = (1, (run ok found 0 cs (fresh [])).1)
