-- ===== src/Vectors/Laws.antt =====
-- os_lab_2: the calculations against the vectors that were put in, and the loop of concat_nums.c.
use os_5sem.Prelude.{
  dec_lt, ℕ, zero, suc, ◌+◌, ◌-◌, ◌*◌, ◌^◌, ◌≤◌, ◌<◌, ◌≡◌, refl, ap, ◌∙◌, true, List, [], ◌∷◌, ◌++◌,
  Option, none, some, ltb, if◌then◌else◌, length, map, ◌>>=◌, arith,
}
use os_5sem.Prelude.Int.{ℤ, pos, negsuc}
use os_5sem.Vectors.{
  Ended, exited_1, undefined, shows, Input, read_vector, read_input, add, mul, at_both, in_front,
  sum_loop, sum_vectors_main, product_loop, scalar_prod_main, grow, print_concat, concat_main,
}

-- The sum of two vectors, place by place; `none` if one place overflows.
unfoldable pub vector_sum : List ℤ → List ℤ → Option (List ℤ)
vector_sum (a ∷ v1) (b ∷ v2) = in_front (add a b) (vector_sum v1 v2)
vector_sum _ _ = some []

read_vector-map :
    (xs : List ℤ) (rest : Input) → read_vector (length xs) (map some xs ++ rest) ≡ some (xs, rest)
unfolding read_vector
read_vector-map [] rest = refl
read_vector-map (x ∷ xs) rest = rw (read_vector-map xs rest) refl

sum_loop-cons :
    (a b : ℤ) (v1 v2 : List ℤ) (i k : ℕ) → sum_loop (a ∷ v1) (b ∷ v2) (suc i) k ≡ sum_loop v1 v2 i k
unfolding sum_loop
sum_loop-cons a b v1 v2 i zero = refl
sum_loop-cons a b v1 v2 i (suc k) = rw (sum_loop-cons a b v1 v2 (suc i) k) refl

sum_loop-eq :
    (v1 v2 : List ℤ) → length v1 ≡ length v2 → sum_loop v1 v2 0 (length v1) ≡ vector_sum v1 v2
unfolding sum_loop vector_sum
sum_loop-eq [] v2 e = refl
sum_loop-eq (a ∷ v1) [] e = absurd (omega (arith, e))
sum_loop-eq (a ∷ v1) (b ∷ v2) e =
    rw (sum_loop-cons a b v1 v2 0 (length v1), sum_loop-eq v1 v2 (omega (arith, e))) refl

bind-cong :
    {A B : Type 0} (o : Option A) {f g : A → Option B}
    → ((a : A) → f a ≡ g a)
    → (o >>= f) ≡ (o >>= g)
bind-cong none h = refl
bind-cong (some a) h = h a

-- The input of two vectors of the same length, and what comes behind them.
abbrev pub typed : List ℤ → List ℤ → Input → Input
typed v1 v2 rest = some (pos (length v1)) ∷ (map some v1 ++ (map some v2 ++ rest))

read_vector-eq :
    (n : ℕ) (xs : List ℤ) (rest : Input)
    → n ≡ length xs
    → read_vector n (map some xs ++ rest) ≡ some (xs, rest)
read_vector-eq n xs rest e = rw e (read_vector-map xs rest)

read_input-typed :
    (a b : ℤ) (v1 v2 : List ℤ) (rest : Input)
    → length v1 ≡ length v2
    → read_input true (typed (a ∷ v1) (b ∷ v2) rest) ≡ some (suc (length v1), a ∷ v1, b ∷ v2)
read_input-typed a b v1 v2 rest e =
    rw
      (
        read_vector-eq (suc (length v1)) (a ∷ v1) (map some (b ∷ v2) ++ rest) refl,
        read_vector-eq (suc (length v1)) (b ∷ v2) rest (ap suc e),
      )
      refl

abbrev pub result : {A : Type 0} → Option A → Ended A
result none = undefined
result (some r) = shows r

-- If no call of malloc fails, and the input is two vectors of the same length, at least 1, and anything
-- behind them, sum_vectors.c shows their sum, unless a place overflows.
pub sum_vectors_lem :
    (a b : ℤ) (v1 v2 : List ℤ) (rest : Input)
    → length v1 ≡ length v2
    → sum_vectors_main true true (typed (a ∷ v1) (b ∷ v2) rest)
      ≡ result (vector_sum (a ∷ v1) (b ∷ v2))
unfolding sum_vectors_main read_vector vector_sum
sum_vectors_lem a b v1 v2 rest e =
    rw (read_input-typed a b v1 v2 rest e, sum_loop-eq (a ∷ v1) (b ∷ v2) (ap suc e)) (refl)

-- The sum of the products, added up from the first place on.
module _ {F : Type 0} (to_double : ℤ → F) (plus : F → F → F) where
  unfoldable pub dot : List ℤ → List ℤ → F → Option F
  dot (a ∷ v1) (b ∷ v2) acc = mul a b >>= λ c. dot v1 v2 (plus acc (to_double c))
  dot _ _ acc = some acc

  product_loop-cons :
      (a b : ℤ) (v1 v2 : List ℤ) (i k : ℕ) (acc : F)
      → product_loop to_double plus (a ∷ v1) (b ∷ v2) (suc i) k acc
        ≡ product_loop to_double plus v1 v2 i k acc
  unfolding product_loop
  product_loop-cons a b v1 v2 i zero acc = refl
  product_loop-cons a b v1 v2 i (suc k) acc =
      bind-cong (at_both mul v1 v2 i)
        (λ c. product_loop-cons a b v1 v2 (suc i) k (plus acc (to_double c)))

  product_loop-eq :
      (v1 v2 : List ℤ) (acc : F)
      → length v1 ≡ length v2
      → product_loop to_double plus v1 v2 0 (length v1) acc ≡ dot v1 v2 acc
  unfolding product_loop dot
  product_loop-eq [] v2 acc e = refl
  product_loop-eq (a ∷ v1) [] acc e = absurd (omega (arith, e))
  product_loop-eq (a ∷ v1) (b ∷ v2) acc e = bind-cong (mul a b) (λ c.
      product_loop-cons a b v1 v2 0 (length v1) (plus acc (to_double c))
      ∙ product_loop-eq v1 v2 (plus acc (to_double c)) (omega (arith, e)))

  -- For input of two vectors of the same length, at least 1, scalar_prod.c shows the sum of the
  -- products of their places, unless a product overflows.
  pub scalar_prod_lem :
      (zero_double : F) (a b : ℤ) (v1 v2 : List ℤ) (rest : Input)
      → length v1 ≡ length v2
      → scalar_prod_main to_double plus true zero_double (typed (a ∷ v1) (b ∷ v2) rest)
        ≡ result (dot (a ∷ v1) (b ∷ v2) zero_double)
  unfolding scalar_prod_main read_vector dot
  scalar_prod_lem zero_double a b v1 v2 rest e =
      rw
        (
          read_input-typed a b v1 v2 rest e,
          product_loop-eq (a ∷ v1) (b ∷ v2) zero_double (ap suc e),
        )
        (refl)

grow_step :
    (fuel b p : ℕ)
    → 10 ≤ b
    → grow (suc fuel) b p ≡ (if ltb (p * 10) (2 ^ 31) then grow fuel b (p * 10) else some undefined)
unfolding grow
grow_step fuel b p two = ground arith

grow_nine :
    (k b : ℕ)
    → 10 ≤ b
    → grow (suc (suc (suc (suc (suc (suc (suc (suc (suc k))))))))) b 10 ≡ some undefined
grow_nine k b two =
    grow_step (suc (suc (suc (suc (suc (suc (suc (suc k)))))))) b 10 two
    ∙ grow_step (suc (suc (suc (suc (suc (suc (suc k))))))) b 100 two
    ∙ grow_step (suc (suc (suc (suc (suc (suc k)))))) b 1000 two
    ∙ grow_step (suc (suc (suc (suc (suc k))))) b 10000 two
    ∙ grow_step (suc (suc (suc (suc k)))) b 100000 two
    ∙ grow_step (suc (suc (suc k))) b 1000000 two
    ∙ grow_step (suc (suc k)) b 10000000 two
    ∙ grow_step (suc k) b 100000000 two
    ∙ grow_step k b 1000000000 two

grow_ends : (fuel b : ℕ) → 9 ≤ fuel → 10 ≤ b → grow fuel b 10 ≡ some undefined
grow_ends fuel b h two =
    let k = fuel - 9 in
    let e : fuel ≡ (suc (suc (suc (suc (suc (suc (suc (suc (suc k))))))))) = omega arith in
    rw e (grow_nine k b two)

grow_digit : (fuel b : ℕ) → 9 ≤ fuel → b < 10 → grow fuel b 10 ≡ some (shows 10)
unfolding grow
grow_digit zero b h digit = absurd (omega arith)
grow_digit (suc fuel) b h digit = ground arith

-- Nine rounds of its loop are enough for concat_nums.c to end on every input.
pub concat_terminates :
    (fuel : ℕ) (input : Input) → 9 ≤ fuel → (e : Ended ℕ) × (concat_main fuel input ≡ some e)
unfolding concat_main print_concat
concat_terminates fuel [] h = (exited_1, refl)
concat_terminates fuel (none ∷ more) h = (exited_1, refl)
concat_terminates fuel (some (negsuc n) ∷ more) h = (exited_1, refl)
concat_terminates fuel (some (pos a) ∷ []) h = (exited_1, refl)
concat_terminates fuel (some (pos a) ∷ none ∷ rest) h = (exited_1, refl)
concat_terminates fuel (some (pos a) ∷ some (negsuc n) ∷ rest) h = (exited_1, refl)
concat_terminates fuel (some (pos a) ∷ some (pos b) ∷ rest) h = elim (dec_lt b 10) [
  | yes digit ↦ (
    if ltb (a * 10 + b) (2 ^ 31) then shows (a * 10 + b) else undefined,
    ap (print_concat a b) (grow_digit fuel b h digit),
  )
  | no two ↦ (undefined, ap (print_concat a b) (grow_ends fuel b h (omega arith)))
]

-- Of two numbers that are not negative: for a second number of one digit concat_nums.c shows the digits of both, if they fit an int; for any
-- longer one the program overflows, and shows nothing.
pub concat_lem :
    (fuel a b : ℕ) (rest : Input)
    → 9 ≤ fuel
    → concat_main fuel (some (pos a) ∷ some (pos b) ∷ rest) ≡ (
        if ltb b 10
        then some (if ltb (a * 10 + b) (2 ^ 31) then shows (a * 10 + b) else undefined)
        else some undefined)
unfolding concat_main print_concat
concat_lem fuel a b rest h = elim (dec_lt b 10) [
  | yes digit ↦ ap (print_concat a b) (grow_digit fuel b h digit) ∙ ground arith
  | no two ↦ ap (print_concat a b) (grow_ends fuel b h (omega arith)) ∙ ground arith
]
