-- ===== src/Daemon/Terminal.antt =====
-- os_lab_3/src/daemon_get_tty.c: a daemon that keeps a terminal. Its `main` leaves the session of its
-- terminal, and takes another terminal for the new one; it calls none of the other functions.
use os_5sem.Prelude.{
  ℕ, ◌≡◌, Bool, true, false, Option, none, some, ◌==◌, not, if◌then◌else◌, arith, ℕ_discrete, inl,
  inr, Option-cases,
}
use os_5sem.Prelude.Family.{update}
use os_5sem.Daemon.Descriptors.{
  terminal, Fork, fork_failed, parent, child, Calls, Outcome, goes_on, Process, daemonize_on,
  attach_sound, detached,
}

-- `daemonize` of this file, with the terminal 4 in place of the device null.
abbrev pub daemonize : Calls → Process → Outcome
daemonize c p = daemonize_on (terminal 4) c p

-- Sessions have the number of their first process. What the calls of `main` change: the session of the
-- process, whether it leads it, and the session that each terminal controls, if it does.
pub record Session : Type 0 where
  pub session : ℕ
  pub leads : Bool
  pub controls : ℕ → Option ℕ  -- by terminal

pub record TtyCalls : Type 0 where
  pub fork : Fork
  pub pid : ℕ  -- of the child
  pub setsid_ok : Bool
  pub open_ok : Bool
  pub is_root : Bool

-- setsid: the new session has no terminal.
abbrev pub new_session : ℕ → Session → Session
new_session pid s = record s { session = pid; leads = true }

abbrev pub has_terminal : Session → ℕ → Bool
has_terminal s n = elim (s.controls n) [ none ↦ false | some k ↦ k == s.session ]

-- Linux: a session leader without a terminal that opens one which controls no session gets it.
-- `has_one`: the session has a terminal already.
abbrev pub open_tty : Bool → ℕ → Session → Session
open_tty has_one n s =
    if has_one
    then s
    else if s.leads
    then (elim (s.controls n) [
      | none ↦ record s { controls = update s.controls n (some s.session) }
      | some k ↦ s
    ])
    else s

-- ioctl(fd, TIOCSCTTY, 1): a leader gets the terminal, and that of another session only as root; the
-- result is not looked at.
abbrev pub set_tty : Bool → ℕ → Session → Session
set_tty is_root n s =
    if s.leads
    then (elim (s.controls n) [
      | none ↦ record s { controls = update s.controls n (some s.session) }
      | some k ↦ if is_root then record s { controls = update s.controls n (some s.session) } else s
    ])
    else s

pub data TtyOutcome : Type 0 where
  tty_exits : ℕ → TtyOutcome
  spins : Session → TtyOutcome  -- while (1);

unfoldable pub main : TtyCalls → Session → TtyOutcome
main c s = elim c.fork [
  | fork_failed ↦ tty_exits 1
  | parent ↦ tty_exits 0
  | child ↦
      if not c.setsid_ok
      then tty_exits 1
      else if not c.open_ok
      then tty_exits 1
      else spins (set_tty c.is_root 2 (open_tty false 2 (new_session c.pid s)))
]

-- If the program comes to its endless loop, it leads a session of its own. That session has the
-- terminal 2 if no session had it before, or if the program is run by root; and else the terminal is
-- left with the session that had it.
pub get_tty_main :
    (c : TtyCalls) (s t : Session)
    → main c s ≡ spins t
    → (t.session ≡ c.pid)
      × (t.leads ≡ true)
      × (t.controls 2 ≡ (elim (s.controls 2) [
        | none ↦ some c.pid
        | some k ↦ if c.is_root then some c.pid else some k
      ]))
unfolding main ℕ_discrete
get_tty_main c s t e = ground arith

-- Where `daemonize` of this file returns, the descriptors 0, 1 and 2 are the terminal 4.
pub get_tty_daemonize :
    (c : Calls) (p q : Process)
    → daemonize c p ≡ goes_on q
    → (q.files 0 ≡ some (terminal 4))
      × (q.files 1 ≡ some (terminal 4))
      × (q.files 2 ≡ some (terminal 4))
      × (q.leads_session ≡ true)
unfolding daemonize_on
get_tty_daemonize c p q e = elim (Option-cases c.limit) [
  | inl fails ↦ ground (arith, fails)
  | inr (rl, limit) ↦ ground (arith, limit, attach_sound (terminal 4) c (detached rl p) q)
]
