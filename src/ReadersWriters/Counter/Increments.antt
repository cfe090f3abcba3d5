-- ===== src/ReadersWriters/Counter/Increments.antt =====
-- os_lab_4/tmp_pc.c: no increment of its number is lost.
use os_5sem.Prelude.{
  ℕ, ◌+◌, ◌≡◌, ◌⊎◌, inl, inr, refl, sym, ap, ◌∙◌, Bool, true, false, List, Option, none, some,
  arith,
}
use mathlib.Core.Path.{subst}
use native.Mathlib.Nat.{add-zero}
use os_5sem.Prelude.Family.{update}
use os_5sem.Posix.Semop.{Sems, Sembuf, semop}
use os_5sem.ReadersWriters.Lock.{
  Lock, unlocked, acquire_read, release_read, acquire_write, release_write,
}
use os_5sem.ReadersWriters.Program.{
  Pc, r_loop, r_wait, r_in, r_out, w_loop, w_wait, w_in, w_wrap, w_load, w_store, w_out, quit,
  failed, failed_reading, failed_writing, laid_out,
}
use os_5sem.ReadersWriters.Process.{Mem, call}
use os_5sem.ReadersWriters.Counter.{
  start_read, stop_read, start_write, stop_write, view, count_writer, counter_calls,
}
use os_5sem.ReadersWriters.Counter.Runs.{
  code, stores, in_write, System, start_of, Reach, start, later,
}

record Inv (m : Mem) (pc : ℕ → Pc) (increments : ℕ) : Type 0 where
  lock : Lock
  laid : m.sems ≡ view lock
  held : (i : ℕ) → in_write (pc i) ≡ true → lock.writing ≡ true
  alone : (i j : ℕ) → in_write (pc i) ≡ true → in_write (pc j) ≡ true → i ≡ j
  loaded : (i c : ℕ) → pc i ≡ w_store c → m.buf ≡ c
  counted : m.buf ≡ increments

-- What a call of semop has done: nothing, or the step of the lock.
abbrev Called : Mem → Option Lock → Pc → Pc → Mem × Pc → Type 0
Called m o ok bad u =
    (u ≡ (m, bad)) ⊎ ((l : Lock) × (o ≡ some l) × (u ≡ (record m { sems = view l }, ok)))

called :
    (interrupted : Bool) (ops : List Sembuf) (m : Mem) (ok bad : Pc) (u : Mem × Pc) (l : Lock)
    (o : Option Lock)
    → m.sems ≡ view l
    → semop ops (view l) ≡ laid_out view o
    → call interrupted ops m ok bad ≡ some u
    → Called m o ok bad u
called true ops m ok bad u l o sems e r = inl (cc r)
called false ops m ok bad u l none sems e r = absurd (ground (arith, ap (semop ops) sems))
called false ops m ok bad u l (some l') sems e r =
    inr (l', refl, ground (arith, ap (semop ops) sems))

kept_in_write :
    (pc : ℕ → Pc) (i j : ℕ) (c : Pc)
    → in_write c ≡ in_write (pc i)
    → in_write (update pc i c j) ≡ in_write (pc j)
kept_in_write pc i j c kept = ground arith

module _ (m : Mem) (pc : ℕ → Pc) (k : ℕ) (inv : Inv m pc k) (i : ℕ) where
  abbrev Leaves : ℕ → Mem × Pc → Type 0
  Leaves n u = Inv u.0 (update pc i u.1) n

  -- A step that stores nothing, and neither begins nor ends a writer's section.
  neutral :
      (sems : Sems) (l : Lock) (c : Pc)
      → sems ≡ view l
      → l.writing ≡ inv.lock.writing
      → in_write c ≡ in_write (pc i)
      → ((v : ℕ) → c ≡ w_store v → m.buf ≡ v)
      → Leaves k (record m { sems = sems }, c)
  neutral sems l c laid same kept loads =
      let writes = λ (j : ℕ). kept_in_write pc i j c kept in
      record {
        lock = l;
        laid = laid;
        held = λ j h. same ∙ inv.held j (sym (writes j) ∙ h);
        alone = λ j j' h h'. inv.alone j j' (sym (writes j) ∙ h) (sym (writes j') ∙ h');
        loaded = λ j v h. ground (arith, inv.loaded j v, loads v);
        counted = inv.counted;
      }

  -- A writer comes in.
  enters :
      inv.lock.writing ≡ false
      → Leaves k (record m { sems = view (record inv.lock { writing = true }) }, w_load)
  enters free = record {
    lock = record inv.lock { writing = true };
    laid = refl;
    held = λ j h. refl;
    alone = λ j j' h h'. ground (arith, inv.held j, inv.held j');
    loaded = λ j v h. ground (arith, inv.loaded j v);
    counted = inv.counted;
  }

  leaves :
      in_write (pc i) ≡ true
      → Leaves k (record m { sems = view (record inv.lock { writing = false }) }, w_loop)
  leaves in_it = record {
    lock = record inv.lock { writing = false };
    laid = refl;
    held = λ j h. ground (arith, inv.alone i j);
    alone = λ j j' h h'. ground (arith, inv.alone i j, inv.alone i j');
    loaded = λ j v h. ground (arith, inv.loaded j v);
    counted = inv.counted;
  }

  increment : (v : ℕ) → pc i ≡ w_store v → Leaves (k + 1) (record m { buf = v + 1 }, w_out)
  increment v at =
      let writes = λ (j : ℕ). kept_in_write pc i j w_out (rw at refl) in
      record {
        lock = inv.lock;
        laid = inv.laid;
        held = λ j h. inv.held j (sym (writes j) ∙ h);
        alone = λ j j' h h'. inv.alone j j' (sym (writes j) ∙ h) (sym (writes j') ∙ h');
        loaded = λ j w h. ground (arith, inv.alone i j);
        counted = omega (arith, inv.loaded i v at, inv.counted);
      }

-- What a call leaves, whichever way it goes.
either :
    (P : Mem × Pc → Type 0) {m : Mem} {o : Option Lock} {ok bad : Pc} {u : Mem × Pc}
    → Called m o ok bad u
    → P (m, bad)
    → ((l : Lock) → o ≡ some l → P (record m { sems = view l }, ok))
    → P u
either P (inl e) h k = subst P (sym e) h
either P (inr (l, got, e)) h k = subst P (sym e) (k l got)

some_inj : {A : Type 0} {a b : A} → some a ≡ some b → a ≡ b
some_inj e = cc

stored :
    (m : Mem) (c : ℕ) (u : Mem × Pc)
    → count_writer false m (w_store c) ≡ some u
    → (record m { buf = c + 1 }, w_out) ≡ u
stored m c u e = ground arith

begins_out : (b : Bool) → in_write (start_of b) ≡ true → ⊥
begins_out true h = cc h
begins_out false h = cc h

reads_keep : (l l' : Lock) → acquire_read l ≡ some l' → l'.writing ≡ l.writing
reads_keep l l' e = ground arith

read_ends_keep : (l l' : Lock) → release_read l ≡ some l' → l'.writing ≡ l.writing
read_ends_keep l l' e = ground arith

write_begins :
    (l l' : Lock)
    → acquire_write l ≡ some l'
    → (l.writing ≡ false) × (l' ≡ record l { writing = true })
write_begins l l' e = ground arith

write_ends : (l l' : Lock) → release_write l ≡ some l' → l' ≡ record l { writing = false }
write_ends l l' e = ground arith

module _ (m : Mem) (pc : ℕ → Pc) (k : ℕ) (inv : Inv m pc k) (i : ℕ) (interrupted : Bool) where
  abbrev After : ℕ → Mem × Pc → Type 0
  After = Leaves m pc k inv i

  -- A step that is no call, or a call that fails.
  stays :
      (c c' : Pc)
      → pc i ≡ c
      → in_write c' ≡ in_write c
      → ((v : ℕ) → c' ≡ w_store v → m.buf ≡ v)
      → After (k + 0) (m, c')
  stays c c' at same loads =
      subst (λ n. After n (m, c')) (sym (add-zero k))
        (neutral m pc k inv i m.sems inv.lock c' inv.laid refl (rw at same) loads)

  through :
      (c c' : Pc) (l : Lock)
      → pc i ≡ c
      → l.writing ≡ inv.lock.writing
      → in_write c' ≡ in_write c
      → ((v : ℕ) → c' ≡ w_store v → m.buf ≡ v)
      → After (k + 0) (record m { sems = view l }, c')
  through c c' l at same kept loads =
      subst (λ n. After n (record m { sems = view l }, c')) (sym (add-zero k))
        (neutral m pc k inv i (view l) l c' refl same (rw at kept) loads)

  code-Inv :
      (c : Pc) (u : Mem × Pc) → pc i ≡ c → code interrupted m c ≡ some u → After (k + stores c) u
  code-Inv r_loop u at e =
      subst (After (k + 0)) (some_inj e) (stays r_loop r_wait at refl (λ v h. cc h))
  code-Inv r_wait u at e =
      either (After (k + 0))
        (called interrupted start_read m r_in failed u inv.lock (acquire_read inv.lock) inv.laid
          (counter_calls inv.lock).0 e)
        (stays r_wait failed at refl (λ v h. cc h))
        (λ l got. through r_wait r_in l at (reads_keep inv.lock l got) refl (λ v h. cc h))
  code-Inv r_in u at e =
      subst (After (k + 0)) (some_inj e) (stays r_in (r_out m.buf) at refl (λ v h. cc h))
  code-Inv (r_out c) u at e =
      either (After (k + 0))
        (called interrupted stop_read m r_loop failed_reading u inv.lock (release_read inv.lock)
          inv.laid (counter_calls inv.lock).1 e)
        (stays (r_out c) failed_reading at refl (λ v h. cc h))
        (λ l got. through (r_out c) r_loop l at (read_ends_keep inv.lock l got) refl (λ v h. cc h))
  code-Inv w_loop u at e =
      subst (After (k + 0)) (some_inj e) (stays w_loop w_wait at refl (λ v h. cc h))
  code-Inv w_wait u at e =
      either (After (k + 0))
        (called interrupted start_write m w_load failed u inv.lock (acquire_write inv.lock) inv.laid
          (counter_calls inv.lock).2 e)
        (stays w_wait failed at refl (λ v h. cc h))
        (λ l got.
          let (free, is) = write_begins inv.lock l got in
          subst (λ x. After (k + 0) (record m { sems = view x }, w_load)) (sym is)
            (subst
              (λ n. After n (record m { sems = view (record inv.lock { writing = true }) }, w_load))
              (sym (add-zero k)) (enters m pc k inv i free)))
  code-Inv w_load u at e =
      subst (After (k + 0)) (some_inj e)
        (stays w_load (w_store m.buf) at refl (λ v h. ground arith))
  code-Inv (w_store c) u at e = subst (After (k + 1)) (stored m c u e) (increment m pc k inv i c at)
  code-Inv w_out u at e =
      either (After (k + 0))
        (called interrupted stop_write m w_loop failed_writing u inv.lock (release_write inv.lock)
          inv.laid (counter_calls inv.lock).3 e)
        (stays w_out failed_writing at refl (λ v h. cc h))
        (λ l got.
          subst (λ x. After (k + 0) (record m { sems = view x }, w_loop))
            (sym (write_ends inv.lock l got))
            (subst
              (λ n.
                After n (record m { sems = view (record inv.lock { writing = false }) }, w_loop))
              (sym (add-zero k)) (leaves m pc k inv i (rw at refl))))
  code-Inv w_in u at e = cc e
  code-Inv w_wrap u at e = cc e
  code-Inv quit u at e = cc e
  code-Inv failed u at e = cc e
  code-Inv failed_reading u at e = cc e
  code-Inv failed_writing u at e = cc e

Reach-Inv : {writer : ℕ → Bool} {s : System} → Reach writer s → Inv s.mem s.pc s.increments
Reach-Inv {writer} start = record {
  lock = unlocked;
  laid = refl;
  held = λ i h. absurd (begins_out (writer i) h);
  alone = λ i j h h'. absurd (begins_out (writer i) h);
  loaded = λ i c h. absurd (begins_out (writer i) (ap in_write h));
  counted = refl;
}
Reach-Inv (later {s} {u} i interrupted r e) =
    code-Inv s.mem s.pc s.increments (Reach-Inv r) i interrupted (s.pc i) u refl e

-- However the readers and writers are interleaved, and whichever calls of semop are interrupted, the
-- number is the count of the increments that were stored, and no two writers stand between their calls
-- of semop.
pub counter_counts :
    {writer : ℕ → Bool} {s : System}
    → Reach writer s
    → (s.mem.buf ≡ s.increments)
      × ((i j : ℕ) → in_write (s.pc i) ≡ true → in_write (s.pc j) ≡ true → i ≡ j)
counter_counts r = let inv = Reach-Inv r in (inv.counted, inv.alone)
