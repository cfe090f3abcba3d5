-- ===== src/Processes/Orphans.antt =====
-- os_lab_2/prog1.c: a process that forks two children and does not wait for them; each of them says
-- whose child it is, and says so again after two seconds.
use os_5sem.Prelude.{ℕ, ◌+◌, ◌<◌, ◌≡◌, ◌≢◌, ◌⊎◌, refl, ap, arith, ℕ_discrete, inl, inr}
use mathlib.Core.Path.{subst}
use os_5sem.Prelude.Family.{update}

-- What getppid gives: the process that forked it, or, once that one has ended, the process that adopts
-- its children.
pub data Ppid : Type 0 where
  forker adopter : Ppid

pub data Main : Type 0 where
  forking : ℕ → Main
  done : ℕ → Main

pub data Child : Type 0 where
  unborn born : Child
  asleep : Ppid → Child  -- with what it has said
  ended : Ppid → Ppid → Child

pub record System : Type 0 where
  pub main : Main
  pub child : ℕ → Child

abbrev pub getppid : Main → Ppid
getppid (forking i) = forker
getppid (done code) = adopter

pub data Reach : System → Type 0 where
  start : Reach (record { main = forking 0; child = λ _. unborn })
  forks :
      {s : System} (i : ℕ)
      → Reach s
      → s.main ≡ forking i
      → i < 2
      → Reach (record { main = forking (i + 1); child = update s.child i born })
  fork_fails :
      {s : System} (i : ℕ)
      → Reach s
      → s.main ≡ forking i
      → i < 2
      → Reach (record s { main = done 1 })
  returns : {s : System} → Reach s → s.main ≡ forking 2 → Reach (record s { main = done 0 })
  says :
      {s : System} (i : ℕ)
      → Reach s
      → s.child i ≡ born
      → Reach (record s { child = update s.child i (asleep (getppid s.main)) })
  says_again :
      {s : System} (i : ℕ) (p : Ppid)
      → Reach s
      → s.child i ≡ asleep p
      → Reach (record s { child = update s.child i (ended p (getppid s.main)) })

-- A child that was adopted stays so, and is not adopted while its parent is there.
abbrev Lawful : Main → Child → Type 0
Lawful m (asleep p) = (p ≡ forker) ⊎ (getppid m ≡ adopter)
Lawful m (ended p q) = ((q ≡ forker) ⊎ (getppid m ≡ adopter)) × ((p ≡ forker) ⊎ (q ≡ adopter))
Lawful m _ = Unit {0}

Lawful-later :
    (m m' : Main) (c : Child)
    → (getppid m ≡ adopter → getppid m' ≡ adopter)
    → Lawful m c
    → Lawful m' c
Lawful-later m m' unborn h l = tt
Lawful-later m m' born h l = tt
Lawful-later m m' (asleep p) h l = ground arith
Lawful-later m m' (ended p q) h l = ground arith

at_index : (c : ℕ → Child) (i j : ℕ) (x : Child) → i ≡ j → update c i x j ≡ x
at_index c i j x e = ground arith

off_index : (c : ℕ → Child) (i j : ℕ) (x : Child) → i ≢ j → update c i x j ≡ c j
off_index c i j x other = ground arith

main_done : (m : Main) → getppid m ≡ adopter → (code : ℕ) × (m ≡ done code)
main_done (done code) e = (code, refl)
main_done (forking i) e = absurd (cc e)

Lawful-update :
    (m m' : Main) (c : ℕ → Child) (i : ℕ) (x : Child)
    → (getppid m ≡ adopter → getppid m' ≡ adopter)
    → Lawful m' x
    → ((j : ℕ) → Lawful m (c j))
    → (j : ℕ) → Lawful m' (update c i x j)
Lawful-update m m' c i x h new old j = elim (ℕ_discrete i j) [
  | yes it ↦ rw (at_index c i j x it) new
  | no off ↦ rw (off_index c i j x off) (Lawful-later m m' (c j) h (old j))
]

getppid-cases : (m : Main) → (getppid m ≡ forker) ⊎ (getppid m ≡ adopter)
getppid-cases (forking i) = inl refl
getppid-cases (done code) = inr refl

Reach-Lawful : {s : System} → Reach s → (j : ℕ) → Lawful s.main (s.child j)
Reach-Lawful start j = tt
Reach-Lawful (forks {s} i r at low) j =
    Lawful-update s.main (forking (i + 1)) s.child i born (λ e. absurd (cc (e, ap getppid at))) tt
      (Reach-Lawful r) j
Reach-Lawful (fork_fails {s} i r at low) j =
    Lawful-later s.main (done 1) (s.child j) (λ e. refl) (Reach-Lawful r j)
Reach-Lawful (returns {s} r at) j =
    Lawful-later s.main (done 0) (s.child j) (λ e. refl) (Reach-Lawful r j)
Reach-Lawful (says {s} i r at) j =
    Lawful-update s.main s.main s.child i (asleep (getppid s.main)) (λ e. e) (getppid-cases s.main)
      (Reach-Lawful r) j
Reach-Lawful (says_again {s} i p r at) j =
    Lawful-update s.main s.main s.child i (ended p (getppid s.main)) (λ e. e)
      (getppid-cases s.main, subst (Lawful s.main) at (Reach-Lawful r i)) (Reach-Lawful r) j

-- Where a child that has ended said at first that it was adopted, it says so again; and a child says
-- it only once the parent has ended.
pub prog1_adopted :
    (s : System) (i : ℕ) (p q : Ppid)
    → Reach s
    → s.child i ≡ ended p q
    → (p ≡ adopter → q ≡ adopter) × (q ≡ adopter → (code : ℕ) × (s.main ≡ done code))
prog1_adopted s i p q r e =
    let (second, first) = subst (Lawful s.main) e (Reach-Lawful r i) in
    (λ a. ground arith, λ a. main_done s.main (ground arith))
