-- ===== src/ReadersWriters/Lock.antt =====
-- What the semaphore set of a readers-writers program has to be: a lock that many readers or one
-- writer may hold. No source code: the programs are measured against it.
use os_5sem.Prelude.{ℕ, ◌+◌, ◌-◌, Bool, true, false, Option, none, some, ◌==◌, if◌then◌else◌}

pub record Lock : Type 0 where
  pub readers : ℕ
  pub writing : Bool

abbrev pub unlocked : Lock
unlocked = record { readers = 0; writing = false }

-- `none`: the caller has to wait.
abbrev pub acquire_read : Lock → Option Lock
acquire_read l = if l.writing then none else some (record l { readers = l.readers + 1 })

abbrev pub release_read : Lock → Option Lock
release_read l = if l.readers == 0 then none else some (record l { readers = l.readers - 1 })

abbrev pub acquire_write : Lock → Option Lock
acquire_write l =
    if l.writing then none else if l.readers == 0 then some (record l { writing = true }) else none

abbrev pub release_write : Lock → Option Lock
release_write l = if l.writing then some (record l { writing = false }) else none
