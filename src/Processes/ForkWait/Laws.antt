-- ===== src/Processes/ForkWait/Laws.antt =====
-- What a process that forks and waits in two loops has done when it ends.
use os_5sem.Prelude.{
  ℕ, zero, suc, ◌+◌, ◌≤◌, ◌<◌, ◌≡◌, ◌⊎◌, refl, ◌∙◌, true, false, List, [], ◌∷◌, ◌++◌, ◌==◌,
  if◌then◌else◌, arith, ℕ_discrete, dec_lt, inl, inr,
}
use mathlib.Core.Path.{subst}
use os_5sem.Prelude.Family.{update}
use os_5sem.Processes.{Status}
use os_5sem.Processes.Count.{
  Child, unborn, running, zombie, reaped, Children, is_born, is_reaped, count_reaped,
  count-update_same, count-update_reaped, all_reaped, some_left, update_at, update_off, update_ind,
}
use os_5sem.Processes.ForkWait.{
  Main, forking, waiting, done, System, Reach, start, forks, fork_fails, forked_all, ends, waits,
  wait_fails, waited_all,
}

-- How many reports of the child `i` were printed.
unfoldable pub reports_of : ℕ → List (ℕ × Status) → ℕ
reports_of i [] = 0
reports_of i ((j, st) ∷ more) = let rest = reports_of i more in if j == i then rest + 1 else rest

reports_of-append :
    (i j : ℕ) (st : Status) (xs : List (ℕ × Status))
    → reports_of i (xs ++ (j, st) ∷ []) ≡ (if j == i then reports_of i xs + 1 else reports_of i xs)
unfolding reports_of
reports_of-append i j st [] = ground arith
reports_of-append i j st ((k, st') ∷ xs) = ground (arith, reports_of-append i j st xs)

abbrev Place : ℕ → Main → Children → Type 0
Place n (forking i) c =
    (i ≤ n)
    × (count_reaped c n ≡ 0)
    × ((j : ℕ) → j < i → is_born (c j) ≡ true)
    × ((j : ℕ) → i ≤ j → c j ≡ unborn)
Place n (waiting k) c =
    (k ≤ n)
    × (count_reaped c n ≡ k)
    × ((j : ℕ) → j < n → is_born (c j) ≡ true)
    × ((j : ℕ) → n ≤ j → c j ≡ unborn)
Place n (done code) c = ((code ≡ 0 → count_reaped c n ≡ n)) × ((j : ℕ) → n ≤ j → c j ≡ unborn)

abbrev CanEnd : (ℕ → Status → Type 0) → ℕ → Child → Type 0
CanEnd Ends i (zombie st) = Ends i st
CanEnd Ends i (reaped st) = Ends i st
CanEnd Ends i _ = Unit {0}

record Inv (n : ℕ) (Ends : ℕ → Status → Type 0) (s : System) : Type 0 where
  place : Place n s.main s.child
  lawful : (i : ℕ) → CanEnd Ends i (s.child i)
  told : (i : ℕ) → reports_of i s.printed ≡ (if is_reaped (s.child i) then 1 else 0)

Place-at : (n : ℕ) (s : System) (m : Main) → s.main ≡ m → Place n s.main s.child → Place n m s.child
Place-at n s m e p = subst (λ x. Place n x s.child) e p

none_reaped : (n : ℕ) → count_reaped (λ _. unborn) n ≡ 0
unfolding count_reaped
none_reaped zero = refl
none_reaped (suc n) = ground (arith, none_reaped n)

-- A child that runs ends.
Place-ends :
    (n : ℕ) (m : Main) (c : Children) (i : ℕ) (st : Status)
    → c i ≡ running
    → Place n m c
    → Place n m (update c i (zombie st))
Place-ends n (forking k) c i st up (a, b, d, f) = (
  a,
  count-update_same c n i (zombie st) (rw up refl) ∙ b,
  λ j low. ground (arith, d j low),
  λ j high. ground (arith, f j high),
)
Place-ends n (waiting k) c i st up (a, b, d, f) = (
  a,
  count-update_same c n i (zombie st) (rw up refl) ∙ b,
  λ j low. ground (arith, d j low),
  λ j high. ground (arith, f j high),
)
Place-ends n (done code) c i st up (b, f) = (
  λ well. count-update_same c n i (zombie st) (rw up refl) ∙ b well,
  λ j high. ground (arith, f j high),
)

told-same :
    (c : Children) (i j : ℕ) (x : Child) (xs : List (ℕ × Status))
    → is_reaped (c i) ≡ is_reaped x
    → reports_of j xs ≡ (if is_reaped (c j) then 1 else 0)
    → reports_of j xs ≡ (if is_reaped (update c i x j) then 1 else 0)
told-same c i j x xs same e = elim (ℕ_discrete i j) [
  | yes it ↦ rw (update_at c i j x it, ← same, it) e
  | no off ↦ rw (update_off c i j x off) e
]

forked_one :
    (c : Children) (n i : ℕ) (st : Status)
    → ((j : ℕ) → n ≤ j → c j ≡ unborn)
    → c i ≡ zombie st
    → i < n
forked_one c n i st outside over = elim (dec_lt i n) [
  | yes low ↦ low
  | no high ↦ absurd (cc (outside i (omega arith), over))
]

reaped_how : (c : Child) → is_reaped c ≡ true → (st : Status) × (c ≡ reaped st)
reaped_how (reaped st) e = (st, refl)
reaped_how unborn e = absurd (cc e)
reaped_how _ e = absurd (cc e)

left_how :
    (c : Child)
    → is_born c ≡ true
    → is_reaped c ≡ false
    → (c ≡ running) ⊎ ((st : Status) × (c ≡ zombie st))
left_how running b e = inl refl
left_how (zombie st) b e = inr (st, refl)
left_how unborn b e = absurd (cc b)
left_how (reaped st) b e = absurd (cc e)

module _ (n : ℕ) (Ends : ℕ → Status → Type 0) where
  CanEnd-update :
      (c : Children) (i : ℕ) (x : Child)
      → CanEnd Ends i x
      → ((j : ℕ) → CanEnd Ends j (c j))
      → (j : ℕ) → CanEnd Ends j (update c i x j)
  CanEnd-update c i x new old = update_ind (CanEnd Ends) c i x new (λ j off. old j)

  zombie-lawful :
      (c : Children) (i : ℕ) (st : Status) → c i ≡ zombie st → CanEnd Ends i (c i) → Ends i st
  zombie-lawful c i st e h = subst (CanEnd Ends i) e h

  Inv-waits :
      (s : System) (k i : ℕ) (st : Status)
      → s.main ≡ waiting k
      → k < n
      → s.child i ≡ zombie st
      → Inv n Ends s
      → Inv n Ends (record {
        main = waiting (k + 1);
        child = update s.child i (reaped st);
        printed = s.printed ++ (i, st) ∷ [];
      })
  Inv-waits s k i st at low over inv =
      let (a, b, d, f) = Place-at n s (waiting k) at inv.place in
      record {
        place = (
          omega arith,
          count-update_reaped s.child n i st (forked_one s.child n i st f over) (rw over refl)
              ∙ omega (arith, b),
          λ j under. ground (arith, d j under),
          λ j high. ground (arith, f j high),
        );
        lawful =
            CanEnd-update s.child i (reaped st) (zombie-lawful s.child i st over (inv.lawful i))
              inv.lawful;
        told = λ j. ground (arith, reports_of-append j i st s.printed, inv.told j);
      }

  Reach-Inv : {s : System} → Reach n Ends s → Inv n Ends s
  unfolding reports_of
  Reach-Inv start = record {
    place = (omega arith, none_reaped n, λ j h. absurd (omega arith), λ j h. refl);
    lawful = λ i. tt;
    told = λ i. refl;
  }
  Reach-Inv (forks {s} i r at low) =
      let inv = Reach-Inv r in
      let (a, b, d, f) = Place-at n s (forking i) at inv.place in
      let new : s.child i ≡ unborn = f i (omega arith) in
      record {
        place = (
          omega arith,
          count-update_same s.child n i running (rw new refl) ∙ b,
          λ j under. ground (arith, d j),
          λ j high. ground (arith, f j),
        );
        lawful = CanEnd-update s.child i running tt inv.lawful;
        told = λ j. told-same s.child i j running s.printed (rw new refl) (inv.told j);
      }
  Reach-Inv (fork_fails {s} i r at low) =
      let inv = Reach-Inv r in
      let (a, b, d, f) = Place-at n s (forking i) at inv.place in
      record {
        place = (λ well. absurd (omega arith), λ j high. f j (omega arith));
        lawful = inv.lawful;
        told = inv.told;
      }
  Reach-Inv (forked_all {s} r at) =
      let inv = Reach-Inv r in
      let (a, b, d, f) = Place-at n s (forking n) at inv.place in
      record { place = (omega arith, b, d, f); lawful = inv.lawful; told = inv.told }
  Reach-Inv (ends {s} i st r up may) =
      let inv = Reach-Inv r in
      record {
        place = Place-ends n s.main s.child i st up inv.place;
        lawful = CanEnd-update s.child i (zombie st) may inv.lawful;
        told = λ j. told-same s.child i j (zombie st) s.printed (rw up refl) (inv.told j);
      }
  Reach-Inv (waits {s} k i st r at low over) = Inv-waits s k i st at low over (Reach-Inv r)
  Reach-Inv (wait_fails {s} k r at low) =
      let inv = Reach-Inv r in
      let (a, b, d, f) = Place-at n s (waiting k) at inv.place in
      record { place = (λ well. absurd (omega arith), f); lawful = inv.lawful; told = inv.told }
  Reach-Inv (waited_all {s} r at) =
      let inv = Reach-Inv r in
      let (a, b, d, f) = Place-at n s (waiting n) at inv.place in
      record { place = (λ well. b, f); lawful = inv.lawful; told = inv.told }

-- If the parent ends with status 0, it has had its children and no others: each of the first `n` has
-- ended in one of its ways and was waited for, and one report was printed of each; and there is no
-- other child, and no report of one.
pub fork_wait_done :
    {n : ℕ} {Ends : ℕ → Status → Type 0} {s : System}
    → Reach n Ends s
    → s.main ≡ done 0
    → (((i : ℕ)
        → i < n
        → (st : Status) × (s.child i ≡ reaped st) × Ends i st × (reports_of i s.printed ≡ 1)))
      × ((i : ℕ) → n ≤ i → (s.child i ≡ unborn) × (reports_of i s.printed ≡ 0))
fork_wait_done {n} {Ends} {s} r at =
    let inv = Reach-Inv n Ends r in
    let (all, outside) = Place-at n s (done 0) at inv.place in
    (
      λ i low.
          let is = all_reaped s.child n i (all refl) low in
          let (st, e) = reaped_how (s.child i) is in
          (st, e, subst (CanEnd Ends i) e (inv.lawful i), ground (arith, inv.told i, is)),
      λ i high. (outside i high, ground (arith, inv.told i, outside i high)),
    )

-- Whenever the parent calls wait, one of its children runs or has ended and was not waited for: the
-- call cannot fail because there is no child left.
pub fork_wait_left :
    {n : ℕ} {Ends : ℕ → Status → Type 0} {s : System} (k : ℕ)
    → Reach n Ends s
    → s.main ≡ waiting k
    → k < n
    → (i : ℕ) × (i < n) × ((s.child i ≡ running) ⊎ ((st : Status) × (s.child i ≡ zombie st)))
fork_wait_left {n} {Ends} {s} k r at low =
    let inv = Reach-Inv n Ends r in
    let (a, b, d, f) = Place-at n s (waiting k) at inv.place in
    let (i, under, left) = some_left s.child n (omega (arith, b)) in
    (i, under, left_how (s.child i) (d i under) left)
