-- ===== src/ProducerConsumer/Main.antt =====
-- The `main` functions of os_lab_4/les_pc.c and os_lab_4/pc/src/pc.c.
use os_5sem.Prelude.{
  ℕ_discrete, ℕ, ◌+◌, ◌≡◌, refl, Bool, true, false, List, [], ◌∷◌, ◌++◌, ◌∙◌, ap, some, none,
  replicate, length, arith,
}
use os_5sem.Posix.Semop.{Sems}
use os_5sem.Posix.Script.{
  Call, signal, ftok, shmget, shmat, shmdt, shm_rm, semget, sem_set, sem_rm, store, fork, waitpid,
  producer, consumer, Report, Host, effects, run, fresh, run-effects, effects-append,
  effects-waitpid, count_ends, sem_sets,
}
use os_5sem.ProducerConsumer.Slots.{all_free}
use os_5sem.ProducerConsumer.Lesson
use os_5sem.ProducerConsumer.PcProgram

abbrev forks : ℕ → ℕ → List Call
forks p c = replicate p (fork producer) ++ replicate c (fork consumer)

-- The three SETVAL calls of les_pc.c are all made before any of their results is tested.
abbrev pub les_set_up : List Call
les_set_up =
    signal
    ∷ ftok
    ∷ shmget
    ∷ shmat
    ∷ store b'a'
    ∷ ftok
    ∷ semget
    ∷ sem_sets ((0, 1) ∷ (2, 26) ∷ (1, 0) ∷ [])
    ∷ []

abbrev pub les_main : List Call
les_main = les_set_up ++ forks 3 8 ++ replicate 11 waitpid ++ shmdt ∷ sem_rm ∷ shm_rm ∷ []

abbrev pub pc_set_up : List Call
pc_set_up =
    signal
    ∷ ftok
    ∷ shmget
    ∷ shmat
    ∷ store b'a'
    ∷ semget
    ∷ sem_set 0 1
    ∷ sem_set 1 10
    ∷ sem_set 2 0
    ∷ []

abbrev pub pc_main : List Call
pc_main = pc_set_up ++ forks 6 7 ++ replicate 13 waitpid ++ shm_rm ∷ shmdt ∷ sem_rm ∷ []

-- When `main` of les_pc.c comes to its forks, the semaphores say that all 26 places are free and the
-- lock is open, and the current letter is 'a', whatever values the set was found with.
pub les_main_sets_up :
    (found : Sems) (rs : List Report)
    → length found ≡ 3
    → ((effects found les_set_up (fresh rs)).sems ≡ some (Lesson.view (all_free 26)))
      × ((effects found les_set_up (fresh rs)).letter ≡ (Lesson.first (λ _. 0)).cells 0)
unfolding ℕ_discrete
les_main_sets_up found rs h = (ap some (Lesson.lesson-Implements.sets_up found h), refl)

-- If every call succeeds, the program of pc.c exits with status 0 once thirteen reports have come:
-- before its forks all 10 places were free and the lock was open, six producers and seven consumers
-- were forked, the segment and the set are gone, and as many children have ended as the reports say.
pub pc_main_ends :
    (ok : ℕ → Bool) (found : Sems) (rs : List Report)
    → ((k : ℕ) → ok k ≡ true)
    → length found ≡ 3
    → length rs ≡ 13
    → (st : Host) × (run ok found 0 pc_main (fresh rs) ≡ (0, st))
      × ((effects found pc_set_up (fresh rs)).sems ≡ some (PcProgram.view (all_free 10)))
      × (st.segment ≡ false)
      × (st.sems ≡ none)
      × (length st.children ≡ 13)
      × (st.ended ≡ count_ends rs)
pc_main_ends ok found rs all three size = (
  effects found cleanup (record forked { reports = []; ended = forked.ended + count_ends rs }),
  run-effects ok found 0 pc_main (fresh rs) all
      ∙ ap (λ h. (0, h))
          (effects-append found (replicate 13 waitpid) cleanup forked
            ∙ ap (effects found cleanup) (effects-waitpid found 13 rs forked refl size)),
  ap some (PcProgram.pc-Implements.sets_up found three),
  refl,
  refl,
  refl,
  omega arith,
)
  where
    cleanup : List Call
    cleanup = shm_rm ∷ shmdt ∷ sem_rm ∷ []

    forked : Host
    forked = effects found (pc_set_up ++ forks 6 7) (fresh rs)
