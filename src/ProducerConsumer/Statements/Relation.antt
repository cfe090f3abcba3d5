-- ===== src/ProducerConsumer/Statements/Relation.antt =====
-- States in which threads are inside their sections against states in which a section is one step: how
-- the moves of one thread keep them together.
use os_5sem.Prelude.{ℕ, ◌<◌, ◌≡◌, ◌≢◌, refl, sym, ap, ◌∙◌, List, none, arith, ℕ_discrete}
use mathlib.Core.Path.{subst}
use os_5sem.Prelude.Family.{update}
use os_5sem.Posix.Semop.{Sems, Sembuf}
use os_5sem.ProducerConsumer.Slots.{Arrays}
use os_5sem.ProducerConsumer.Threads.{
  Pc, idle, p_wait, p_in, p_out, c_wait, c_in, c_out, Mem, call, Section, System,
}
use os_5sem.ProducerConsumer.Statements.{
  Statement, Side, putting, taking, Place, resting, waits, within, leaves, statement, run_all,
  Moves, Running,
}

abbrev pub start_of : Arrays → Side → List Sembuf
start_of p putting = p.start_prod
start_of p taking = p.start_cons

abbrev pub stop_of : Arrays → Side → List Sembuf
stop_of p putting = p.stop_prod
stop_of p taking = p.stop_cons

-- What a program's code is to do: a list of statements for each side, between its calls.
module _ {S : Type 0} (p : Arrays) (list : Side → List (Statement S)) where
  abbrev pub in_statements : Moves S
  in_statements m resting = none
  in_statements m (waits side) = call (start_of p side) m (within side (list side) 0)
  in_statements m (within side rest r) = statement side rest r m
  in_statements m (leaves side r) = call (stop_of p side) m resting

-- The place where a section is one step.
abbrev pub wait_of : Side → Pc
wait_of putting = p_wait
wait_of taking = c_wait

abbrev pub in_of : Side → Pc
in_of putting = p_in
in_of taking = c_in

abbrev pub out_of : Side → ℕ → Pc
out_of putting r = p_out r
out_of taking r = c_out r

abbrev pub seen : {S : Type 0} → Place S → Pc
seen resting = idle
seen (waits side) = wait_of side
seen (within side rest r) = in_of side
seen (leaves side r) = out_of side r

abbrev pub works : {S : Type 0} → Place S → ℕ
works (within _ _ _) = 1
works _ = 0

abbrev pub section_of : {S : Type 0} → Section S → Section S → Side → Section S
section_of put take putting = put
section_of put take taking = take

-- What is left of a section leads to what the whole section does from the store that it found.
abbrev pub Doing : {S : Type 0} → Section S → Section S → S → S → Place S → Type 0
Doing put take now found (within side rest r) = run_all rest now r ≡ section_of put take side found
Doing put take now found _ = Unit

-- A state as it is where sections are one step: what a section has done so far is not yet there.
pub record Sim {S : Type 0} (put take : Section S) (n : ℕ) (s : Running S) (a : System S)
    : Type 0 where
  pub sems : a.mem.sems ≡ s.mem.sems
  pub made : a.made ≡ s.made
  pub taken : a.taken ≡ s.taken
  pub places : (i : ℕ) → a.pc i ≡ seen (s.place i)
  pub under_way : (i : ℕ) → i < n → Doing put take s.mem.store a.mem.store (s.place i)
  pub calm : ((i : ℕ) → i < n → works (s.place i) ≡ 0) → a.mem.store ≡ s.mem.store

pub update_at : {A : Type 0} (f : ℕ → A) {i j : ℕ} (d : A) → i ≡ j → update f i d j ≡ d
unfolding ℕ_discrete
update_at f {i} {j} d same = ground arith

pub update_ne : {A : Type 0} (f : ℕ → A) {i j : ℕ} (d : A) → i ≢ j → update f i d j ≡ f j
update_ne f {i} {j} d other = ground arith

not_working :
    {S : Type 0} (put take : Section S) (now found : S) (c : Place S)
    → works c ≡ 0
    → Doing put take now found c
not_working put take now found resting h = tt
not_working put take now found (waits _) h = tt
not_working put take now found (leaves _ _) h = tt
not_working put take now found (within _ _ _) h = absurd (omega (arith, h))

-- Thread `i` has moved to `d`.
module _ {S : Type 0} (place : ℕ → Place S) (i : ℕ) (d : Place S) where
  seen-update :
      (pc : ℕ → Pc)
      → ((j : ℕ) → pc j ≡ seen (place j))
      → (j : ℕ) → update pc i (seen d) j ≡ seen (update place i d j)
  seen-update pc places j = elim (ℕ_discrete i j) [
    | yes same ↦ update_at pc (seen d) same ∙ ap seen (sym (update_at place d same))
    | no other ↦ update_ne pc (seen d) other ∙ places j ∙ ap seen (sym (update_ne place d other))
  ]

  every-update :
      (P : Place S → Type 0) {n : ℕ}
      → P d
      → ((j : ℕ) → j < n → i ≢ j → P (place j))
      → (j : ℕ) → j < n
      → P (update place i d j)
  every-update P here others j lj = elim (ℕ_discrete i j) [
    | yes same ↦ subst P (sym (update_at place d same)) here
    | no other ↦ subst P (sym (update_ne place d other)) (others j lj other)
  ]

  nobody_before :
      {n : ℕ}
      → works (place i) ≡ 0
      → ((j : ℕ) → j < n → works (update place i d j) ≡ 0)
      → (j : ℕ) → j < n
      → works (place j) ≡ 0
  nobody_before before none_works j lj = elim (ℕ_discrete i j) [
    | yes same ↦ ap (λ k. works (place k)) (sym same) ∙ before
    | no other ↦ ap works (sym (update_ne place d other)) ∙ none_works j lj
  ]

-- One thread moves.
module _ {S : Type 0} {put take : Section S} {n : ℕ} {s : Running S} {a : System S}
    (sim : Sim put take n s a) (i : ℕ) (lt : i < n) where
  open sim use {sems, made, taken, places, under_way, calm}

  abbrev pub now_at : Mem S → Place S → List ℕ → List ℕ → Running S
  now_at m d made' taken' = record {
    mem = m;
    place = update s.place i d;
    made = made';
    taken = taken';
  }

  abbrev pub seen_at : Mem S → Place S → List ℕ → List ℕ → System S
  seen_at m d made' taken' = record {
    mem = m;
    pc = update a.pc i (seen d);
    made = made';
    taken = taken';
  }

  -- Neither before nor after the move is the thread in its section.
  pub Sim-quiet :
      (t : Sems) (d : Place S) (made' taken' : List ℕ)
      → works (s.place i) ≡ 0
      → works d ≡ 0
      → Sim put take n
          (now_at (record s.mem { sems = t }) d made' taken')
          (seen_at (record a.mem { sems = t }) d made' taken')
  Sim-quiet t d made' taken' before behind = record {
    sems = refl;
    made = refl;
    taken = refl;
    places = seen-update s.place i d a.pc places;
    under_way =
        every-update s.place i d (Doing put take s.mem.store a.mem.store)
          (not_working put take s.mem.store a.mem.store d behind) (λ j lj other. under_way j lj);
    calm = λ none_works. calm (nobody_before s.place i d before none_works);
  }

  -- The thread enters its section, which no other thread is in.
  pub Sim-enter :
      (t : Sems) (side : Side) (all : List (Statement S)) (made' taken' : List ℕ)
      → ((j : ℕ) → j < n → works (s.place j) ≡ 0)
      → run_all all s.mem.store 0 ≡ section_of put take side a.mem.store
      → Sim put take n
          (now_at (record s.mem { sems = t }) (within side all 0) made' taken')
          (seen_at (record a.mem { sems = t }) (within side all 0) made' taken')
  Sim-enter t side all made' taken' nobody runs = record {
    sems = refl;
    made = refl;
    taken = refl;
    places = seen-update s.place i (within side all 0) a.pc places;
    under_way =
        every-update s.place i (within side all 0) (Doing put take s.mem.store a.mem.store) runs
          (λ j lj other. under_way j lj);
    calm = λ none_works. calm nobody;
  }

  -- The thread is the only one in its section.
  module _ (alone : (j : ℕ) → j < n → i ≢ j → works (s.place j) ≡ 0) (side : Side) where
    pub Sim-statement :
        (t : S) (before rest : List (Statement S)) (r r' : ℕ)
        → s.place i ≡ within side before r
        → run_all rest t r' ≡ section_of put take side a.mem.store
        → Sim put take n
            (now_at (record s.mem { store = t }) (within side rest r') s.made s.taken)
            a
    Sim-statement t before rest r r' here runs = record {
      sems = sems;
      made = made;
      taken = taken;
      places = λ j. elim (ℕ_discrete i j) [
        | yes it ↦
            ap a.pc (sym it)
            ∙ places i
            ∙ ap seen here
            ∙ ap seen (sym (update_at s.place (within side rest r') it))
        | no other ↦ places j ∙ ap seen (sym (update_ne s.place (within side rest r') other))
      ];
      under_way =
          every-update s.place i (within side rest r') (Doing put take t a.mem.store) runs
            (λ j lj other. not_working put take t a.mem.store (s.place j) (alone j lj other));
      calm = λ none_works. absurd (
          let own : update s.place i (within side rest r') i ≡ within side rest r' =
            update_at s.place (within side rest r') refl in
          ground (arith, sym (ap works own) ∙ none_works i lt));
    }

    pub Sim-leave :
        (r : ℕ) (made' taken' : List ℕ)
        → Sim put take n
            (now_at s.mem (leaves side r) made' taken')
            (seen_at (record a.mem { store = s.mem.store }) (leaves side r) made' taken')
    Sim-leave r made' taken' = record {
      sems = sems;
      made = refl;
      taken = refl;
      places = seen-update s.place i (leaves side r) a.pc places;
      under_way =
          every-update s.place i (leaves side r) (Doing put take s.mem.store s.mem.store) tt
            (λ j lj other.
              not_working put take s.mem.store s.mem.store (s.place j) (alone j lj other));
      calm = λ none_works. refl;
    }
