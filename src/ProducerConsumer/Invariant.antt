-- ===== src/ProducerConsumer/Invariant.antt =====
-- The semaphores count the places of the buffer, and the items leave it in the order in which they
-- came; kept by every step.
use os_5sem.Prelude.{
  ℕ, suc, ◌+◌, ◌≤◌, ◌<◌, ◌≡◌, refl, sym, ap, ◌∙◌, true, List, [], Option, none, some, length, arith,
  Option-cases, inl, inr,
}
use mathlib.Core.Path.{subst}
use mathlib.Core.Option.{some-injective}
use mathlib.Core.List.{append-nil}
use os_5sem.Prelude.Family.{update, tally, tally-zero, le-tally}
use os_5sem.Posix.Semop.{Sems, Sembuf, SemResult, done, sleeps, fails, semop}
use os_5sem.ProducerConsumer.Slots.{
  Slots, all_free, begin_put, begin_take, end_put, end_take, Arrays, Implements, done-laid_out,
}
use os_5sem.ProducerConsumer.Threads.{
  Pc, idle, p_wait, p_in, p_out, c_wait, c_in, c_out, Mem, call, Section, body, behaviour, System,
  put_by, taken_by, init, after,
}
use os_5sem.ProducerConsumer.Counts.{
  alphabet, IsWalk, inside, at_p_in, at_p_out, at_c_in, at_c_out, Counts, moves,
}

pub record Inv {S : Type 0} (size : ℕ) (view : Slots → Sems) (Holds : S → ℕ → ℕ → Type 0) (n : ℕ)
    (s : System S) : Type 0 where
  pub slots : Slots
  pub puts : ℕ
  pub takes : ℕ
  pub sems : s.mem.sems ≡ view slots
  pub counts : Counts size slots puts takes n s.pc
  pub holds : Holds s.mem.store puts takes
  pub made : s.made ≡ alphabet puts
  pub taken : s.taken ≡ alphabet takes

module _ {S : Type 0} {size : ℕ} {p : Arrays} {view : Slots → Sems} {put take : Section S}
    {first : S} {Holds : S → ℕ → ℕ → Type 0} (law : Implements size p view)
    (walk : IsWalk size put take first Holds) {n : ℕ} where
  pub Inv-init : (old : Sems) → length old ≡ 3 → Inv size view Holds n (init p first old)
  unfolding alphabet
  Inv-init old size3 = record {
    slots = all_free size;
    puts = 0;
    takes = 0;
    sems = law.sets_up old size3;
    counts = record {
      locked = omega (arith, tally-zero inside (λ _. idle) (λ _. refl) n);
      frees = omega (
        arith,
        tally-zero at_p_in (λ _. idle) (λ _. refl) n,
        tally-zero at_c_out (λ _. idle) (λ _. refl) n,
      );
      fulls = omega (
        arith,
        tally-zero at_p_out (λ _. idle) (λ _. refl) n,
        tally-zero at_c_in (λ _. idle) (λ _. refl) n,
      );
    };
    holds = walk.starts;
    made = refl;
    taken = refl;
  }

  module _ {s : System S} (inv : Inv size view Holds n s) (i : ℕ) (lt : i < n) where
    open inv use {slots, puts, takes, sems, counts, holds, made, taken}

    settled :
        (v u : Mem S × Pc)
        → Inv size view Holds n (after s i v)
        → some v ≡ some u
        → Inv size view Holds n (after s i u)
    settled v u h e =
        subst (λ (w : Mem S × Pc). Inv size view Holds n (after s i w)) (some-injective v u e) h

    -- A call that goes through takes a step of the places.
    Inv-call :
        (l : Slots) {t : Sems} (c d : Pc)
        → s.pc i ≡ c
        → t ≡ view l
        → put_by c d ≡ []
        → taken_by c d ≡ []
        → Counts size l puts takes n (update s.pc i d)
        → Inv size view Holds n (after s i (record s.mem { sems = t }, d))
    Inv-call l c d e te quiet quiet' count = record {
      slots = l;
      puts = puts;
      takes = takes;
      sems = te;
      counts = count;
      holds = holds;
      made = rw (e, quiet, append-nil) made;
      taken = rw (e, quiet', append-nil) taken;
    }

    after-call :
        (o : List Sembuf) (ok : Pc) (u : Mem S × Pc)
        → ((t : Sems)
            → semop o s.mem.sems ≡ done t
            → Inv size view Holds n (after s i (record s.mem { sems = t }, ok)))
        → call o s.mem ok ≡ some u
        → Inv size view Holds n (after s i u)
    after-call o ok u h e = go (semop o s.mem.sems) refl e
      where
        go :
            (r : SemResult)
            → semop o s.mem.sems ≡ r
            → elim r as (λ _. Option (Mem S × Pc)) [
              | done t ↦ some (record s.mem { sems = t }, ok)
              | sleeps ↦ none
              | fails ↦ none
            ]
              ≡ some u
            → Inv size view Holds n (after s i u)
        go (done t) q e' = settled (record s.mem { sems = t }, ok) u (h t q) e'
        go sleeps q e' = cc
        go fails q e' = cc

    Counts-begin_put :
        (l : Slots)
        → begin_put slots ≡ some l
        → s.pc i ≡ p_wait
        → Counts size l puts takes n (update s.pc i p_in)
    Counts-begin_put l q e = ground (arith, moves s.pc i p_in lt e, counts)

    Counts-end_put :
        {c : ℕ} → s.pc i ≡ p_out c → Counts size (end_put slots) puts takes n (update s.pc i idle)
    Counts-end_put {c} e = ground (arith, moves s.pc i idle lt e, counts)

    Counts-begin_take :
        (l : Slots)
        → begin_take slots ≡ some l
        → s.pc i ≡ c_wait
        → Counts size l puts takes n (update s.pc i c_in)
    Counts-begin_take l q e = ground (arith, moves s.pc i c_in lt e, counts)

    Counts-end_take :
        {c : ℕ} → s.pc i ≡ c_out c → Counts size (end_take slots) puts takes n (update s.pc i idle)
    Counts-end_take {c} e = ground (arith, moves s.pc i idle lt e, counts)

    locked_inside : inside (s.pc i) ≡ 1 → slots.held ≡ true
    locked_inside h = ground (arith, counts.locked, le-tally inside s.pc i n lt)

    Counts-put :
        (c : ℕ) → s.pc i ≡ p_in → Counts size slots (suc puts) takes n (update s.pc i (p_out c))
    Counts-put c e = ground (arith, moves s.pc i (p_out c) lt e, counts)

    Counts-take :
        (c : ℕ) → s.pc i ≡ c_in → Counts size slots puts (suc takes) n (update s.pc i (c_out c))
    Counts-take c e = ground (arith, moves s.pc i (c_out c) lt e, counts)

    -- Who is in the section has a place to fill, or an item to take.
    pub room_to_put : s.pc i ≡ p_in → puts < size + takes
    room_to_put e = omega (arith, counts.frees, sees)
      where
        sees : 1 ≤ tally at_p_in s.pc n
        sees = rw e at (le-tally at_p_in s.pc i n lt)

    pub items_to_take : s.pc i ≡ c_in → takes < puts
    items_to_take e = omega (arith, counts.fulls, sees)
      where
        sees : 1 ≤ tally at_c_in s.pc n
        sees = rw e at (le-tally at_c_in s.pc i n lt)

    Inv-put :
        (u : Mem S × Pc)
        → s.pc i ≡ p_in
        → body put p_out s.mem ≡ some u
        → Inv size view Holds n (after s i u)
    unfolding alphabet
    Inv-put u e b = elim (Option-cases (put s.mem.store)) [
      | inl fault ↦ cc (rw (fault, body) at b)
      | inr ((t, c), q) ↦
          let (is_letter, holds') =
            walk.puts_next s.mem.store t puts takes c holds (room_to_put e) q in
          settled (record s.mem { store = t }, p_out c) u
            (record {
              slots = slots;
              puts = suc puts;
              takes = takes;
              sems = sems;
              counts = Counts-put c e;
              holds = holds';
              made = rw (e, made, is_letter);
              taken = rw (e, append-nil) taken;
            })
            (rw (q, body) at b)
    ]

    Inv-take :
        (u : Mem S × Pc)
        → s.pc i ≡ c_in
        → body take c_out s.mem ≡ some u
        → Inv size view Holds n (after s i u)
    unfolding alphabet
    Inv-take u e b = elim (Option-cases (take s.mem.store)) [
      | inl fault ↦ cc (rw (fault, body) at b)
      | inr ((t, c), q) ↦
          let (is_letter, holds') =
            walk.takes_next s.mem.store t puts takes c holds (items_to_take e) q in
          settled (record s.mem { store = t }, c_out c) u
            (record {
              slots = slots;
              puts = puts;
              takes = suc takes;
              sems = sems;
              counts = Counts-take c e;
              holds = holds';
              made = rw (e, append-nil) made;
              taken = rw (e, taken, is_letter);
            })
            (rw (q, body) at b)
    ]

    pub behaviour-Inv :
        (c : Pc) (u : Mem S × Pc)
        → s.pc i ≡ c
        → behaviour p put take s.mem c ≡ some u
        → Inv size view Holds n (after s i u)
    behaviour-Inv idle u e b = cc
    behaviour-Inv p_wait u e b =
        after-call p.start_prod p_in u
          (λ t q.
            let (l, taken_place, laid) =
              done-laid_out view (begin_put slots)
                (sym (law.starts_put slots) ∙ ap (semop p.start_prod) (sym sems) ∙ q) in
            Inv-call l p_wait p_in e laid refl refl (Counts-begin_put l taken_place e))
          b
    behaviour-Inv p_in u e b = Inv-put u e b
    behaviour-Inv (p_out c) u e b =
        after-call p.stop_prod idle u
          (λ t q.
            let gone : done t ≡ done (view (end_put slots)) =
              sym q ∙ ap (semop p.stop_prod) sems ∙ law.stops_put slots (locked_inside (rw e)) in
            Inv-call (end_put slots) (p_out c) idle e (cc) refl refl (Counts-end_put e))
          b
    behaviour-Inv c_wait u e b =
        after-call p.start_cons c_in u
          (λ t q.
            let (l, taken_place, laid) =
              done-laid_out view (begin_take slots)
                (sym (law.starts_take slots) ∙ ap (semop p.start_cons) (sym sems) ∙ q) in
            Inv-call l c_wait c_in e laid refl refl (Counts-begin_take l taken_place e))
          b
    behaviour-Inv c_in u e b = Inv-take u e b
    behaviour-Inv (c_out c) u e b =
        after-call p.stop_cons idle u
          (λ t q.
            let gone : done t ≡ done (view (end_take slots)) =
              sym q ∙ ap (semop p.stop_cons) sems ∙ law.stops_take slots (locked_inside (rw e)) in
            Inv-call (end_take slots) (c_out c) idle e (cc) refl refl (Counts-end_take e))
          b

    -- A request comes in.
    pub Inv-ask :
        (d : Pc)
        → s.pc i ≡ idle
        → (inside d ≡ 0) × (at_p_in d ≡ 0) × (at_p_out d ≡ 0) × (at_c_in d ≡ 0) × (at_c_out d ≡ 0)
        → Inv size view Holds n (record s { pc = update s.pc i d })
    Inv-ask d e z = record {
      slots = slots;
      puts = puts;
      takes = takes;
      sems = sems;
      counts = ground (arith, moves s.pc i d lt e, counts);
      holds = holds;
      made = made;
      taken = taken;
    }
