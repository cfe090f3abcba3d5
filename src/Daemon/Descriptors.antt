-- ===== src/Daemon/Descriptors.antt =====
-- os_lab_3/src/daemon.c, `daemonize`: how a process leaves its terminal, and which descriptors it has
-- then.
use os_5sem.Prelude.{
  inl, inr, Option-cases, ℕ, zero, suc, ◌+◌, ◌-◌, ◌∙◌, ◌≤◌, ◌≡◌, Bool, true, false, Option, none,
  some, ◌==◌, ◌&&◌, not, ltb, if◌then◌else◌, arith, ℕ_discrete, dec_lt,
}
use os_5sem.Prelude.Family.{update}

pub data File : Type 0 where
  inherited dev_null : File
  terminal : ℕ → File  -- /dev/pts/n

-- What the calls of `daemonize` change.
pub record Process : Type 0 where
  pub umask : ℕ
  pub leads_session : Bool
  pub ignores_hup : Bool
  pub at_root : Bool
  pub files : ℕ → Option File  -- by descriptor

pub data Fork : Type 0 where
  fork_failed parent child : Fork

-- How the calls end. `limit` is that of getrlimit: `none` if it fails, and `some none` for
-- RLIM_INFINITY.
pub record Calls : Type 0 where
  pub limit : Option (Option ℕ)
  pub fork : Fork
  pub setsid_ok : Bool
  pub sigaction_ok : Bool
  pub chdir_ok : Bool
  pub open_ok : Bool
  pub max_open : ℕ  -- descriptors from here on are not given out

pub data Outcome : Type 0 where
  exits : ℕ → Outcome
  goes_on : Process → Outcome

abbrev pub Files : Type 0
Files = ℕ → Option File

-- POSIX: open and dup give out the lowest descriptor that is free.
unfoldable pub lowest_free : Files → ℕ → ℕ → Option ℕ
lowest_free files zero fd = none
lowest_free files (suc left) fd = elim (files fd) [
  | none ↦ some fd
  | some f ↦ lowest_free files left (fd + 1)
]

abbrev pub placed : Files → File → Option ℕ → Option ℕ × Files
placed files f none = (none, files)
placed files f (some fd) = (some fd, update files fd (some f))

-- open(device, O_RDWR)
abbrev pub open_device : File → Calls → Files → Option ℕ × Files
open_device device c files =
    if c.open_ok then placed files device (lowest_free files c.max_open 0) else (none, files)

-- dup(0)
abbrev pub dup_zero : Calls → Files → Option ℕ × Files
dup_zero c files = elim (files 0) [
  | none ↦ (none, files)
  | some f ↦ placed files f (lowest_free files c.max_open 0)
]

-- for (i = 0; i < rl.rlim_max; i++) close(i);
unfoldable pub close_below : ℕ → Files → Files
close_below zero files = files
close_below (suc i) files = update (close_below i files) i none

abbrev pub rlim_max : Option ℕ → ℕ
rlim_max none = 1024
rlim_max (some n) = n

abbrev pub is : Option ℕ → ℕ → Bool
is none n = false
is (some fd) n = fd == n

-- From the call of open on.
unfoldable pub attach : File → Calls → Process → Outcome
attach device c p =
    let (fd0, files0) = open_device device c p.files in
    let (fd1, files1) = dup_zero c files0 in
    let (fd2, files2) = dup_zero c files1 in
    if is fd0 0 && is fd1 1 && is fd2 2 then goes_on (record p { files = files2 }) else exits 1

-- The process in front of that call.
abbrev pub detached : Option ℕ → Process → Process
detached rl p = record {
  umask = 0;
  leads_session = true;
  ignores_hup = true;
  at_root = true;
  files = close_below (rlim_max rl) p.files;
}

-- With the device that the three descriptors are to be.
unfoldable pub daemonize_on : File → Calls → Process → Outcome
daemonize_on device c p = elim c.limit [
  | none ↦ exits 1
  | some rl ↦ elim c.fork [
    | fork_failed ↦ exits 1
    | parent ↦ exits 0
    | child ↦
        if not c.setsid_ok
        then exits 1
        else if not c.sigaction_ok
        then exits 1
        else if not c.chdir_ok
        then exits 1
        else attach device c (detached rl p)
  ]
]

unfoldable pub daemonize : Calls → Process → Outcome
daemonize c p = daemonize_on dev_null c p

close_below_lem :
    (n : ℕ) (files : Files) (fd : ℕ)
    → close_below n files fd ≡ (if ltb fd n then none else files fd)
unfolding close_below
close_below_lem zero files fd = ground arith
close_below_lem (suc n) files fd = ground (arith, close_below_lem n files fd)

pub attach_sound :
    (device : File) (c : Calls) (p q : Process)
    → attach device c p ≡ goes_on q
    → (q.files 0 ≡ some device)
      × (q.files 1 ≡ some device)
      × (q.files 2 ≡ some device)
      × (q.leads_session ≡ p.leads_session)
      × (q.ignores_hup ≡ p.ignores_hup)
unfolding attach ℕ_discrete
attach_sound device c p q e = ground arith

lowest_free_at :
    (files : Files) (left fd : ℕ) → files fd ≡ none → lowest_free files (suc left) fd ≡ some fd
unfolding lowest_free
lowest_free_at files left fd e = ground arith

lowest_free_past :
    (files : Files) (left fd : ℕ) (f : File)
    → files fd ≡ some f
    → lowest_free files (suc left) fd ≡ lowest_free files left (fd + 1)
unfolding lowest_free
lowest_free_past files left fd f e = ground arith

-- With no descriptor taken, and three to give out, the three of the daemon are given out.
abbrev with_device : File → Files → Files
with_device device files =
    update (update (update files 0 (some device)) 1 (some device)) 2 (some device)

attach_total :
    (device : File) (c : Calls) (p : Process)
    → c.open_ok ≡ true
    → 3 ≤ c.max_open
    → ((fd : ℕ) → p.files fd ≡ none)
    → attach device c p ≡ goes_on (record p { files = with_device device p.files })
unfolding attach ℕ_discrete
attach_total device c p opens room clear =
    let m = c.max_open - 3 in
    let size : c.max_open ≡ suc (suc (suc m)) = omega arith in
    let files0 = update p.files 0 (some device) in
    let files1 = update files0 1 (some device) in
    let first : lowest_free p.files c.max_open 0 ≡ some 0 =
      rw size (lowest_free_at p.files (suc (suc m)) 0 (clear 0)) in
    let second : lowest_free files0 c.max_open 0 ≡ some 1 = rw size (
      lowest_free_past files0 (suc (suc m)) 0 device (ground arith)
      ∙ lowest_free_at files0 (suc m) 1 (ground (arith, clear 1))) in
    let third : lowest_free files1 c.max_open 0 ≡ some 2 = rw size (
      lowest_free_past files1 (suc (suc m)) 0 device (ground arith)
      ∙ lowest_free_past files1 (suc m) 1 device (ground arith)
      ∙ lowest_free_at files1 m 2 (ground (arith, clear 2))) in
    ground (arith, first, second, third)

with_device_lem :
    (device : File) (files : Files) (fd : ℕ)
    → files fd ≡ none
    → with_device device files fd ≡ (if ltb fd 3 then some device else none)
unfolding ℕ_discrete
with_device_lem device files fd clear = ground arith

-- Where `daemonize` returns, whichever calls failed, the process leads a session of its own, ignores
-- SIGHUP, and has the device null as its descriptors 0, 1 and 2.
pub daemonize_sound :
    (c : Calls) (p q : Process)
    → daemonize c p ≡ goes_on q
    → (q.files 0 ≡ some dev_null)
      × (q.files 1 ≡ some dev_null)
      × (q.files 2 ≡ some dev_null)
      × (q.leads_session ≡ true)
      × (q.ignores_hup ≡ true)
unfolding daemonize daemonize_on
daemonize_sound c p q e = elim (Option-cases c.limit) [
  | inl fails ↦ ground (arith, fails)
  | inr (rl, limit) ↦ ground (arith, limit, attach_sound dev_null c (detached rl p) q)
]

-- If no call fails, every descriptor that the process has lies below the limit of getrlimit, and
-- three can be given out, the child returns from `daemonize` with the descriptors 0, 1 and 2 and no
-- other.
pub daemonize_total :
    (c : Calls) (p : Process) (rl : Option ℕ)
    → c.limit ≡ some rl
    → c.fork ≡ child
    → (c.setsid_ok ≡ true) × (c.sigaction_ok ≡ true) × (c.chdir_ok ≡ true) × (c.open_ok ≡ true)
    → 3 ≤ c.max_open
    → ((fd : ℕ) → rlim_max rl ≤ fd → p.files fd ≡ none)
    → (q : Process) × (daemonize c p ≡ goes_on q)
      × ((fd : ℕ) → q.files fd ≡ (if ltb fd 3 then some dev_null else none))
unfolding daemonize daemonize_on
daemonize_total c p rl limit is_child (leads, ignores, root, opens) room below =
    let clear = λ (fd : ℕ). close_below_lem (rlim_max rl) p.files fd ∙ outside fd in
    (
      record (detached rl p) { files = with_device dev_null (detached rl p).files },
      ground (arith, limit, attach_total dev_null c (detached rl p) opens room clear),
      λ fd. with_device_lem dev_null (detached rl p).files fd (clear fd),
    )
  where
    outside : (fd : ℕ) → (if ltb fd (rlim_max rl) then none else p.files fd) ≡ none
    outside fd = elim (dec_lt fd (rlim_max rl)) [
      | yes low ↦ ground arith
      | no high ↦ ground (arith, below fd)
    ]
