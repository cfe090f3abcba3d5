-- ===== src/ReadersWriters/Program.antt =====
-- What the four programs differ in, and what it is for their semaphore set to be a lock.
use os_5sem.Prelude.{ℕ, ◌≡◌, refl, List, Option, none, some, length}
use os_5sem.Posix.Semop.{Sems, Sembuf, SemResult, done, sleeps, semop}
use os_5sem.ReadersWriters.Lock.{
  Lock, unlocked, acquire_read, release_read, acquire_write, release_write,
}

-- Where a process stands. A process that ended is `quit` if it left its loop, `failed` after a
-- `semop` that returned -1 outside the section, and `failed_reading` or `failed_writing` after one
-- that was to leave it.
pub data Pc : Type 0 where
  r_loop : Pc  -- test of the reader's `while`
  r_wait : Pc  -- semop(start_read)
  r_in : Pc  -- before the letter is read
  r_out : ℕ → Pc  -- the letter is printed; semop(stop_read)
  w_loop : Pc  -- test of the writer's `while`
  w_wait : Pc  -- semop(start_write)
  w_in : Pc  -- the test of the letter against 'z'
  w_wrap : Pc  -- before the store after a 'z'
  w_load : Pc  -- before the load of the increment
  w_store : ℕ → Pc  -- before its store
  w_out : Pc  -- semop(stop_write)
  quit failed failed_reading failed_writing : Pc

-- The operation arrays of a program, what its `main` does to the set and the letter, and how its
-- writer goes on from a 'z'.
pub record Program : Type 0 where
  pub start_read : List Sembuf
  pub stop_read : List Sembuf
  pub start_write : List Sembuf
  pub stop_write : List Sembuf
  pub nsems : ℕ
  pub set_up : Sems → Sems
  pub first_letter : ℕ
  pub wrapped : ℕ  -- stored over a 'z'
  pub after_wrap : Pc  -- where the writer goes on from there

-- `view` lays a lock out as the values of a set.
abbrev pub laid_out : (Lock → Sems) → Option Lock → SemResult
laid_out view none = sleeps
laid_out view (some l) = done (view l)

-- Every call does to the set what the lock's operation does to the lock, and sleeps when that
-- waits. A set that is set up is an unlocked lock, whatever values it had before.
pub record Implements (p : Program) (view : Lock → Sems) : Type 0 where
  pub sets_up : (s : Sems) → length s ≡ p.nsems → p.set_up s ≡ view unlocked
  pub reads : (l : Lock) → semop p.start_read (view l) ≡ laid_out view (acquire_read l)
  pub stops_reading : (l : Lock) → semop p.stop_read (view l) ≡ laid_out view (release_read l)
  pub writes : (l : Lock) → semop p.start_write (view l) ≡ laid_out view (acquire_write l)
  pub stops_writing : (l : Lock) → semop p.stop_write (view l) ≡ laid_out view (release_write l)

-- A call that goes through has taken the lock's step.
pub done-laid_out :
    (view : Lock → Sems) (o : Option Lock) {s : Sems}
    → laid_out view o ≡ done s
    → (l : Lock) × (o ≡ some l) × (s ≡ view l)
done-laid_out view none h = cc
done-laid_out view (some l) h = (l, refl, cc)
