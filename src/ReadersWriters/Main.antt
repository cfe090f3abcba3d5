-- ===== src/ReadersWriters/Main.antt =====
-- The `main` functions of the readers-writers programs: they set the semaphores and the letter up,
-- fork writers and then readers, take one report of a child a round, and remove what they made.
use os_5sem.Prelude.{
  ℕ, ◌+◌, ◌-◌, ◌≡◌, refl, Bool, true, false, List, [], ◌∷◌, ◌++◌, ◌∙◌, ap, some, none, replicate,
  length, arith,
}
use os_5sem.Posix.Semop.{Sems}
use os_5sem.Posix.Script.{
  Call, signal, ftok, shmget, shmat, shmdt, shm_rm, semget, sem_set, sem_sets, sem_rm, store, fork,
  waitpid, wait_end, writer, reader, Report, Host, effects, run, fresh, run-effects, effects-append,
  effects-waitpid, count_ends,
}
use os_5sem.ReadersWriters.Lock.{unlocked}
use os_5sem.ReadersWriters.Wr
use os_5sem.ReadersWriters.WrOld
use os_5sem.ReadersWriters.Hoare
use os_5sem.ReadersWriters.TmpWr

-- The forks of a program, writers first.
abbrev forks : ℕ → ℕ → List Call
forks w r = replicate w (fork writer) ++ replicate r (fork reader)

abbrev pub wr_set_up : List Call
wr_set_up =
    signal
    ∷ ftok
    ∷ shmget
    ∷ shmat
    ∷ store b'a'
    ∷ semget
    ∷ sem_set 0 0
    ∷ sem_set 1 0
    ∷ sem_set 2 0
    ∷ sem_set 3 0
    ∷ sem_set 4 1
    ∷ []

abbrev pub wr_main : List Call
wr_main = wr_set_up ++ forks 3 6 ++ replicate 9 waitpid ++ shmdt ∷ shm_rm ∷ sem_rm ∷ []

-- When `main` of Wr comes to its forks, the set is an unlocked lock and the letter is the first one,
-- whatever values the set was found with: the state in which the processes are taken to start.
pub wr_main_sets_up :
    (found : Sems) (rs : List Report)
    → length found ≡ 5
    → ((effects found wr_set_up (fresh rs)).sems ≡ some (Wr.view unlocked))
      × ((effects found wr_set_up (fresh rs)).sems ≡ some (Wr.program.set_up found))
      × ((effects found wr_set_up (fresh rs)).letter ≡ Wr.program.first_letter)
wr_main_sets_up found rs h = (ap some (Wr.wr-Implements.sets_up found h), refl, refl)

abbrev pub wr_old_set_up : List Call
wr_old_set_up =
    signal
    ∷ ftok
    ∷ shmget
    ∷ shmat
    ∷ store b'a'
    ∷ semget
    ∷ sem_set 0 0
    ∷ sem_set 1 0
    ∷ sem_set 2 0
    ∷ sem_set 3 0
    ∷ []

abbrev pub wr_old_main : List Call
wr_old_main = wr_old_set_up ++ forks 4 6 ++ replicate 10 waitpid ++ shmdt ∷ shm_rm ∷ sem_rm ∷ []

-- When `main` of WrOld comes to its forks, the set is an unlocked lock and the letter is the first one,
-- whatever values the set was found with: the state in which the processes are taken to start.
pub wr_old_main_sets_up :
    (found : Sems) (rs : List Report)
    → length found ≡ 4
    → ((effects found wr_old_set_up (fresh rs)).sems ≡ some (WrOld.view unlocked))
      × ((effects found wr_old_set_up (fresh rs)).sems ≡ some (WrOld.program.set_up found))
      × ((effects found wr_old_set_up (fresh rs)).letter ≡ WrOld.program.first_letter)
wr_old_main_sets_up found rs h = (ap some (WrOld.wr_old-Implements.sets_up found h), refl, refl)

abbrev pub hoare_set_up : List Call
hoare_set_up =
    signal
    ∷ ftok
    ∷ shmget
    ∷ shmat
    ∷ store b'a'
    ∷ ftok
    ∷ semget
    ∷ sem_sets ((1, 0) ∷ (2, 0) ∷ (3, 0) ∷ (4, 0) ∷ (0, 1) ∷ [])
    ∷ []

abbrev pub hoare_main : List Call
hoare_main = hoare_set_up ++ forks 3 5 ++ replicate 8 waitpid ++ shmdt ∷ sem_rm ∷ shm_rm ∷ []

-- When `main` of Hoare comes to its forks, the set is an unlocked lock and the letter is the first one,
-- whatever values the set was found with: the state in which the processes are taken to start.
pub hoare_main_sets_up :
    (found : Sems) (rs : List Report)
    → length found ≡ 5
    → ((effects found hoare_set_up (fresh rs)).sems ≡ some (Hoare.view unlocked))
      × ((effects found hoare_set_up (fresh rs)).sems ≡ some (Hoare.program.set_up found))
      × ((effects found hoare_set_up (fresh rs)).letter ≡ Hoare.program.first_letter)
hoare_main_sets_up found rs h = (ap some (Hoare.hoare-Implements.sets_up found h), refl, refl)

abbrev pub tmp_wr_set_up : List Call
tmp_wr_set_up =
    signal
    ∷ ftok
    ∷ shmget
    ∷ shmat
    ∷ store (b'a' - 1)
    ∷ ftok
    ∷ semget
    ∷ sem_set 3 1
    ∷ sem_set 4 0
    ∷ sem_set 0 0
    ∷ sem_set 1 0
    ∷ sem_set 2 0
    ∷ []

abbrev pub tmp_wr_main : List Call
tmp_wr_main = tmp_wr_set_up ++ forks 4 5 ++ replicate 9 wait_end ++ shmdt ∷ shm_rm ∷ sem_rm ∷ []

-- When `main` of TmpWr comes to its forks, the set is an unlocked lock and the letter is the first one,
-- whatever values the set was found with: the state in which the processes are taken to start.
pub tmp_wr_main_sets_up :
    (found : Sems) (rs : List Report)
    → length found ≡ 5
    → ((effects found tmp_wr_set_up (fresh rs)).sems ≡ some (TmpWr.view unlocked))
      × ((effects found tmp_wr_set_up (fresh rs)).sems ≡ some (TmpWr.program.set_up found))
      × ((effects found tmp_wr_set_up (fresh rs)).letter ≡ TmpWr.program.first_letter)
tmp_wr_main_sets_up found rs h = (ap some (TmpWr.tmp_wr-Implements.sets_up found h), refl, refl)

-- If every call succeeds, the program of wr.c exits with status 0 once nine reports have come: the
-- segment and the set are gone, three writers and six readers were forked, and as many of them have
-- ended as the reports say.
pub wr_main_ends :
    (ok : ℕ → Bool) (found : Sems) (rs : List Report)
    → ((k : ℕ) → ok k ≡ true)
    → length rs ≡ 9
    → (st : Host) × (run ok found 0 wr_main (fresh rs) ≡ (0, st))
      × (st.segment ≡ false)
      × (st.sems ≡ none)
      × (length st.children ≡ 9)
      × (st.ended ≡ count_ends rs)
wr_main_ends ok found rs all size = (
  effects found cleanup (record forked { reports = []; ended = forked.ended + count_ends rs }),
  run-effects ok found 0 wr_main (fresh rs) all
      ∙ ap (λ h. (0, h))
          (effects-append found (replicate 9 waitpid) cleanup forked
            ∙ ap (effects found cleanup) (effects-waitpid found 9 rs forked refl size)),
  refl,
  refl,
  refl,
  omega arith,
)
  where
    cleanup : List Call
    cleanup = shmdt ∷ shm_rm ∷ sem_rm ∷ []

    forked : Host
    forked = effects found (wr_set_up ++ forks 3 6) (fresh rs)
