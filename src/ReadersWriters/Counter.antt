-- ===== src/ReadersWriters/Counter.antt =====
-- os_lab_4/tmp_pc.c: the same monitor around a shared number that the writers count up. The places
-- of a process are those of the other programs; its loops do not end.
pub mod Runs
pub mod Increments
mod Examples
use os_5sem.Prelude.{
  ℕ, ◌+◌, ◌≡◌, refl, Bool, true, false, List, [], ◌∷◌, ◌++◌, Option, none, some, if◌then◌else◌,
  length, replicate, ap, ◌∙◌, ◌==◌, arith,
}
use os_5sem.Prelude.Int.{pos, negsuc}
use os_5sem.Posix.Semop.{Sems, Sembuf, op, semop}
use os_5sem.Posix.Script.{
  Call, ftok, shmget, shmat, shmdt, shm_rm, semget, sem_sets, sem_rm, store, fork, waitpid, writer,
  reader, Report, Host, effects, run, fresh, run-effects, effects-append, effects-waitpid,
  count_ends,
}
use os_5sem.ReadersWriters.Lock.{
  Lock, unlocked, acquire_read, release_read, acquire_write, release_write,
}
use os_5sem.ReadersWriters.Program.{
  Pc, r_loop, r_wait, r_in, r_out, w_loop, w_wait, w_load, w_store, w_out, failed, failed_reading,
  failed_writing, laid_out,
}
use os_5sem.ReadersWriters.Process.{Mem, call}

abbrev active_readers : ℕ
active_readers = 0

abbrev write_queue : ℕ
write_queue = 1

abbrev read_queue : ℕ
read_queue = 2

abbrev active_writer : ℕ
active_writer = 3

abbrev bin_writer : ℕ
bin_writer = 4

abbrev pub start_read : List Sembuf
start_read =
    op read_queue (pos 1)
    ∷ op active_writer (pos 0)
    ∷ op write_queue (pos 0)
    ∷ op active_readers (pos 1)
    ∷ op read_queue (negsuc 0)
    ∷ []

abbrev pub stop_read : List Sembuf
stop_read = op active_readers (negsuc 0) ∷ []

abbrev pub start_write : List Sembuf
start_write =
    op write_queue (pos 1)
    ∷ op active_readers (pos 0)
    ∷ op bin_writer (negsuc 0)
    ∷ op active_writer (pos 0)
    ∷ op active_writer (pos 1)
    ∷ op write_queue (negsuc 0)
    ∷ []

abbrev pub stop_write : List Sembuf
stop_write = op active_writer (negsuc 0) ∷ op bin_writer (pos 1) ∷ []

-- The SETVAL calls of `init_monitor`.
abbrev pub init_monitor : List (ℕ × ℕ)
init_monitor =
    (active_readers, 0)
    ∷ (write_queue, 0)
    ∷ (read_queue, 0)
    ∷ (active_writer, 0)
    ∷ (bin_writer, 1)
    ∷ []

-- The values of the set while the lock is held so.
abbrev pub view : Lock → Sems
view l = l.readers ∷ 0 ∷ 0 ∷ (if l.writing then 1 else 0) ∷ (if l.writing then 0 else 1) ∷ []

-- `none` is a wait, and in a store of the number the overflow of an int, which C leaves undefined.
abbrev pub count_reader : Bool → Mem → Pc → Option (Mem × Pc)
count_reader interrupted m r_loop = some (m, r_wait)
count_reader interrupted m r_wait = call interrupted start_read m r_in failed
count_reader interrupted m r_in = some (m, r_out m.buf)
count_reader interrupted m (r_out c) = call interrupted stop_read m r_loop failed_reading
count_reader _ _ _ = none

abbrev pub count_writer : Bool → Mem → Pc → Option (Mem × Pc)
count_writer interrupted m w_loop = some (m, w_wait)
count_writer interrupted m w_wait = call interrupted start_write m w_load failed
count_writer interrupted m w_load = some (m, w_store m.buf)
count_writer interrupted m (w_store c) =
    if c == 2147483647 then none else some (record m { buf = c + 1 }, w_out)
count_writer interrupted m w_out = call interrupted stop_write m w_loop failed_writing
count_writer _ _ _ = none

-- The four calls on the semaphore set of the program are the operations of a lock that many readers
-- or one writer may hold: each goes through exactly when the lock's operation does, with its effect.
pub counter_calls :
    (l : Lock)
    → (semop start_read (view l) ≡ laid_out view (acquire_read l))
      × (semop stop_read (view l) ≡ laid_out view (release_read l))
      × (semop start_write (view l) ≡ laid_out view (acquire_write l))
      × (semop stop_write (view l) ≡ laid_out view (release_write l))
unfolding semop
counter_calls l = (ground arith, ground arith, ground arith, ground arith)

abbrev pub counter_set_up : List Call
counter_set_up = ftok ∷ semget ∷ ftok ∷ shmget ∷ shmat ∷ store 0 ∷ sem_sets init_monitor ∷ []

abbrev pub counter_main : List Call
counter_main =
    counter_set_up
    ++ (replicate 3 (fork writer) ++ replicate 4 (fork reader))
    ++ replicate 7 waitpid
    ++ sem_rm ∷ shmdt ∷ shm_rm ∷ []

set_up_view :
    (s : Sems) → length s ≡ 5 → (effects s counter_set_up (fresh [])).sems ≡ some (view unlocked)
set_up_view (a ∷ b ∷ c ∷ d ∷ e ∷ []) h = refl
set_up_view _ h = absurd (omega arith)

-- If every call succeeds, the program exits with status 0 once seven reports have come: before its
-- forks the set was an unlocked lock and the number 0, three writers and four readers were forked,
-- the segment and the set are gone, and as many children have ended as the reports say.
pub counter_main_ends :
    (ok : ℕ → Bool) (found : Sems) (rs : List Report)
    → ((k : ℕ) → ok k ≡ true)
    → length found ≡ 5
    → length rs ≡ 7
    → (st : Host) × (run ok found 0 counter_main (fresh rs) ≡ (0, st))
      × ((effects found counter_set_up (fresh rs)).sems ≡ some (view unlocked))
      × ((effects found counter_set_up (fresh rs)).letter ≡ 0)
      × (st.segment ≡ false)
      × (st.sems ≡ none)
      × (length st.children ≡ 7)
      × (st.ended ≡ count_ends rs)
counter_main_ends ok found rs all five size = (
  effects found cleanup (record forked { reports = []; ended = forked.ended + count_ends rs }),
  run-effects ok found 0 counter_main (fresh rs) all
      ∙ ap (λ h. (0, h))
          (effects-append found (replicate 7 waitpid) cleanup forked
            ∙ ap (effects found cleanup) (effects-waitpid found 7 rs forked refl size)),
  set_up_view found five,
  refl,
  refl,
  refl,
  refl,
  omega arith,
)
  where
    cleanup : List Call
    cleanup = sem_rm ∷ shmdt ∷ shm_rm ∷ []

    forked : Host
    forked =
        effects found (counter_set_up ++ (replicate 3 (fork writer) ++ replicate 4 (fork reader)))
          (fresh rs)
