-- ===== src/ProducerConsumer/Slots.antt =====
-- What the three semaphores of a producer-consumer program have to be: the free places of a buffer,
-- its filled places, and a lock. No source code: the programs are measured against it.
use os_5sem.Prelude.{
  ℕ, ◌+◌, ◌-◌, ◌≡◌, refl, Bool, true, false, List, Option, none, some, ◌==◌, if◌then◌else◌, length,
}
use os_5sem.Posix.Semop.{Sems, Sembuf, SemResult, done, sleeps, semop}

pub record Slots : Type 0 where
  pub free : ℕ
  pub full : ℕ
  pub held : Bool

abbrev pub all_free : ℕ → Slots
all_free n = record { free = n; full = 0; held = false }

-- A producer takes a free place and the lock, or waits; likewise a consumer a filled place.
abbrev pub begin_put : Slots → Option Slots
begin_put l =
    if l.free == 0
    then none
    else if l.held
    then none
    else some (record l { free = l.free - 1; held = true })

abbrev pub begin_take : Slots → Option Slots
begin_take l =
    if l.full == 0
    then none
    else if l.held
    then none
    else some (record l { full = l.full - 1; held = true })

abbrev pub end_put : Slots → Slots
end_put l = record l { full = l.full + 1; held = false }

abbrev pub end_take : Slots → Slots
end_take l = record l { free = l.free + 1; held = false }

pub record Arrays : Type 0 where
  pub start_prod : List Sembuf
  pub stop_prod : List Sembuf
  pub start_cons : List Sembuf
  pub stop_cons : List Sembuf
  pub set_up : Sems → Sems

abbrev pub laid_out : (Slots → Sems) → Option Slots → SemResult
laid_out view none = sleeps
laid_out view (some l) = done (view l)

-- Every call does to the set what the operation on the places does, for a buffer of `size` places.
pub record Implements (size : ℕ) (p : Arrays) (view : Slots → Sems) : Type 0 where
  pub sets_up : (s : Sems) → length s ≡ 3 → p.set_up s ≡ view (all_free size)
  pub starts_put : (l : Slots) → semop p.start_prod (view l) ≡ laid_out view (begin_put l)
  pub starts_take : (l : Slots) → semop p.start_cons (view l) ≡ laid_out view (begin_take l)
  pub stops_put : (l : Slots) → l.held ≡ true → semop p.stop_prod (view l) ≡ done (view (end_put l))
  pub stops_take :
      (l : Slots) → l.held ≡ true → semop p.stop_cons (view l) ≡ done (view (end_take l))

pub done-laid_out :
    (view : Slots → Sems) (o : Option Slots) {s : Sems}
    → laid_out view o ≡ done s
    → (l : Slots) × (o ≡ some l) × (s ≡ view l)
done-laid_out view none h = cc
done-laid_out view (some l) h = (l, refl, cc)
