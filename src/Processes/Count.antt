-- ===== src/Processes/Count.antt =====
-- The children of a process, and how many of them were waited for. No source code by itself.
use os_5sem.Prelude.{
  ℕ, zero, suc, ◌+◌, ◌≤◌, ◌<◌, ◌≡◌, ◌≢◌, refl, Bool, true, false, arith, ℕ_discrete, inl, inr,
  Bool-cases, if◌then◌else◌,
}
use mathlib.Core.Path.{subst}
use os_5sem.Prelude.Family.{update}
use os_5sem.Processes.{Status}

pub data Child : Type 0 where
  unborn running : Child
  zombie reaped : Status → Child

abbrev pub is_reaped : Child → Bool
is_reaped (reaped _) = true
is_reaped _ = false

abbrev pub is_born : Child → Bool
is_born unborn = false
is_born _ = true

abbrev pub Children : Type 0
Children = ℕ → Child

-- Of the first children.
unfoldable pub count_reaped : Children → ℕ → ℕ
count_reaped c zero = 0
count_reaped c (suc m) =
    let before = count_reaped c m in if is_reaped (c m) then before + 1 else before

pub count-le : (c : Children) (m : ℕ) → count_reaped c m ≤ m
unfolding count_reaped
count-le c zero = omega arith
count-le c (suc m) = ground (arith, count-le c m)

-- A child that is not waited for, and changes to another such state.
pub count-update_same :
    (c : Children) (m i : ℕ) (x : Child)
    → is_reaped (c i) ≡ is_reaped x
    → count_reaped (update c i x) m ≡ count_reaped c m
unfolding count_reaped
count-update_same c zero i x same = refl
count-update_same c (suc m) i x same = ground (arith, count-update_same c m i x same)

count-update_above :
    (c : Children) (m i : ℕ) (x : Child) → m ≤ i → count_reaped (update c i x) m ≡ count_reaped c m
unfolding count_reaped
count-update_above c zero i x above = refl
count-update_above c (suc m) i x above = ground (arith, count-update_above c m i x (omega arith))

pub count-update_reaped :
    (c : Children) (m i : ℕ) (st : Status)
    → i < m
    → is_reaped (c i) ≡ false
    → count_reaped (update c i (reaped st)) m ≡ count_reaped c m + 1
unfolding count_reaped
count-update_reaped c zero i st low new = absurd (omega arith)
count-update_reaped c (suc m) i st low new = elim (ℕ_discrete i m) [
  | yes last ↦ ground (arith, count-update_above c m i (reaped st) (omega arith))
  | no before ↦ ground (arith, count-update_reaped c m i st (omega arith) new)
]

pub all_reaped : (c : Children) (m i : ℕ) → count_reaped c m ≡ m → i < m → is_reaped (c i) ≡ true
unfolding count_reaped
all_reaped c zero i all low = absurd (omega arith)
all_reaped c (suc m) i all low = elim (ℕ_discrete i m) [
  | yes last ↦ ground (arith, count-le c m)
  | no before ↦ ground (arith, count-le c m, all_reaped c m i)
]

pub some_left :
    (c : Children) (m : ℕ) → count_reaped c m < m → (i : ℕ) × (i < m) × (is_reaped (c i) ≡ false)
unfolding count_reaped
some_left c zero few = absurd (omega arith)
some_left c (suc m) few = elim (Bool-cases (is_reaped (c m))) [
  | inl one ↦ let (i, low, left) = some_left c m (ground (arith, one)) in (i, omega arith, left)
  | inr left ↦ (m, omega arith, left)
]

pub update_at : (c : Children) (i j : ℕ) (x : Child) → i ≡ j → update c i x j ≡ x
update_at c i j x e = ground arith

pub update_off : (c : Children) (i j : ℕ) (x : Child) → i ≢ j → update c i x j ≡ c j
update_off c i j x other = ground arith

-- What holds of the new state of one child, and of the states of the others.
pub update_ind :
    (P : ℕ → Child → Type 0) (c : Children) (i : ℕ) (x : Child)
    → P i x
    → ((j : ℕ) → i ≢ j → P j (c j))
    → (j : ℕ) → P j (update c i x j)
update_ind P c i x new old j = elim (ℕ_discrete i j) [
  | yes it ↦ rw (update_at c i j x it) (subst (λ k. P k x) it new)
  | no off ↦ rw (update_off c i j x off) (old j off)
]
