-- ===== src/Prelude/Family.antt =====
-- What each of `n` processes holds, as a function of its index: change at one index, and sums of
-- weights, by which the counters of a program are compared with where its processes stand.
use Prim.Native.Nat.{ℕ, zero, suc, ◌+◌, ◌≤◌, ◌<◌}
use mathlib.Core.Path.{◌≡◌, refl}
use mathlib.Core.Logic.{◌≢◌, ite}
use native.Mathlib.Decide.{dec_lt, ℕ_discrete}
use native.Mathlib.Omega.{arith}

abbrev pub update {ℓ} : {A : Type ℓ} → (ℕ → A) → ℕ → A → ℕ → A
update f i a j = ite (ℕ_discrete i j) a (f j)

module _ {ℓ} {A : Type ℓ} (w : A → ℕ) where
  pub tally : (ℕ → A) → ℕ → ℕ
  tally f zero = 0
  tally f (suc n) = w (f n) + tally f n

  tally-outside : (f : ℕ → A) (i : ℕ) (a : A) (n : ℕ) → n ≤ i → tally (update f i a) n ≡ tally f n
  unfolding tally
  tally-outside f i a zero h = refl
  tally-outside f i a (suc n) h = ground (arith, tally-outside f i a n)

  -- The sum changes by what the one process adds.
  pub tally-update :
      (f : ℕ → A) (i : ℕ) (a : A) (n : ℕ)
      → i < n
      → tally (update f i a) n + w (f i) ≡ tally f n + w a
  unfolding tally
  tally-update f i a zero h = absurd (omega arith)
  tally-update f i a (suc n) h = elim (dec_lt i n) [
    | yes below ↦ ground (arith, tally-update f i a n below)
    | no last ↦ ground (arith, tally-outside f i a n)
  ]

  pub tally-zero : (f : ℕ → A) → ((i : ℕ) → w (f i) ≡ 0) → (n : ℕ) → tally f n ≡ 0
  unfolding tally
  tally-zero f h zero = refl
  tally-zero f h (suc n) = omega (arith, h n, tally-zero f h n)

  -- One process weighs no more than all of them.
  pub le-tally : (f : ℕ → A) (i n : ℕ) → i < n → w (f i) ≤ tally f n
  unfolding tally
  le-tally f i zero h = absurd (omega arith)
  le-tally f i (suc n) h = elim (dec_lt i n) [
    | yes below ↦ omega (arith, le-tally f i n below)
    | no last ↦ ground arith
  ]

  -- Nor do two.
  pub add-le-tally : (f : ℕ → A) (i j n : ℕ) → i ≢ j → i < n → j < n → w (f i) + w (f j) ≤ tally f n
  unfolding tally
  add-le-tally f i j zero ne hi hj = absurd (omega arith)
  add-le-tally f i j (suc n) ne hi hj =
      ground (arith, add-le-tally f i j n ne, le-tally f i n, le-tally f j n)

  -- If the sum is positive, some process has a weight.
  pub find_positive : (f : ℕ → A) (n : ℕ) → 0 < tally f n → (i : ℕ) × (i < n) × (0 < w (f i))
  unfolding tally
  find_positive f zero h = absurd (omega arith)
  find_positive f (suc n) h = elim (dec_lt 0 (w (f n))) [
    | yes here ↦ (n, omega arith, here)
    | no none_here ↦
        let (i, below, pos_i) = find_positive f n (omega arith) in (i, omega arith, pos_i)
  ]

  pub tally-zero_below : (f : ℕ → A) (n : ℕ) → ((i : ℕ) → i < n → w (f i) ≡ 0) → tally f n ≡ 0
  unfolding tally
  tally-zero_below f zero h = refl
  tally-zero_below f (suc n) h =
      omega (arith, h n (omega arith), tally-zero_below f n (λ i lt. h i (omega arith)))
