-- ===== src/Vectors.antt =====
-- os_lab_2/sum_vectors.c, scalar_prod.c, old/sum.c and old/concat_nums.c: calculations on what scanf
-- reads. The input is the list of the results of scanf("%d"): a number, or none where it reads none;
-- at the end of the list it reads none either.
pub mod Laws
mod Examples
use os_5sem.Prelude.{
  ℕ, zero, suc, ◌+◌, ◌*◌, ◌^◌, ◌≤◌, ◌<◌, ◌≡◌, Bool, true, false, List, [], ◌∷◌, ◌++◌, Option, none,
  some, ltb, leb, ◌>>=◌, if◌then◌else◌, get_elem?, length,
}
use os_5sem.Prelude.Int.{ℤ, pos, negsuc, ◌+ℤ◌, ◌*ℤ◌, in_int}

-- How a program ends: `undefined` is an overflow of int.
pub data Ended (A : Type 0) : Type 0 where
  exited_1 : Ended A
  undefined : Ended A
  shows : A → Ended A

abbrev pub Input : Type 0
Input = List (Option ℤ)

abbrev pub scanf : Input → Option (ℤ × Input)
scanf [] = none
scanf (none ∷ more) = none
scanf (some n ∷ more) = some (n, more)

-- The loop that fills a vector with `n` numbers.
unfoldable pub read_vector : ℕ → Input → Option (List ℤ × Input)
read_vector zero input = some ([], input)
read_vector (suc n) input = elim (scanf input) [
  | none ↦ none
  | some (x, more) ↦ elim (read_vector n more) [
    | none ↦ none
    | some (xs, rest) ↦ some (x ∷ xs, rest)
  ]
]

-- The size and the two vectors. `allocates` is whether the calls of malloc before the loops succeed.
abbrev pub read_input : Bool → Input → Option (ℕ × List ℤ × List ℤ)
read_input allocates input = elim (scanf input) [
  | none ↦ none
  | some (negsuc n, more) ↦ none
  | some (pos zero, more) ↦ none
  | some (pos (suc n), more) ↦
      if allocates
      then elim (read_vector (suc n) more) [
        | none ↦ none
        | some (v1, more1) ↦ elim (read_vector (suc n) more1) [
          | none ↦ none
          | some (v2, more2) ↦ some (suc n, v1, v2)
        ]
      ]
      else none
]

-- `add` and `mul` are those of int: `none` where they overflow.
abbrev pub add : ℤ → ℤ → Option ℤ
add a b = in_int (a +ℤ b)

abbrev pub mul : ℤ → ℤ → Option ℤ
mul a b = in_int (a *ℤ b)

-- vector1[i] + vector2[i] and vector1[i] * vector2[i]
abbrev pub at_both : (ℤ → ℤ → Option ℤ) → List ℤ → List ℤ → ℕ → Option ℤ
at_both f v1 v2 i = elim (get_elem? v1 i) [
  | none ↦ none
  | some a ↦ elim (get_elem? v2 i) [ none ↦ none | some b ↦ f a b ]
]

unfoldable pub in_front : Option ℤ → Option (List ℤ) → Option (List ℤ)
in_front (some c) (some cs) = some (c ∷ cs)
in_front _ _ = none

-- `k` rounds of the loop, from `i` on.
unfoldable pub sum_loop : List ℤ → List ℤ → ℕ → ℕ → Option (List ℤ)
sum_loop v1 v2 i zero = some []
sum_loop v1 v2 i (suc k) = in_front (at_both add v1 v2 i) (sum_loop v1 v2 (suc i) k)

-- `allocates2` is whether the malloc of the result succeeds.
unfoldable pub sum_vectors_main : Bool → Bool → Input → Ended (List ℤ)
sum_vectors_main allocates allocates2 input = elim (read_input allocates input) [
  | none ↦ exited_1
  | some (n, v1, v2) ↦
      if allocates2
      then elim (sum_loop v1 v2 0 n) [ none ↦ undefined | some r ↦ shows r ]
      else exited_1
]

-- The sum is a double: its additions are parameters too.
module _ {F : Type 0} (to_double : ℤ → F) (plus : F → F → F) where
  unfoldable pub product_loop : List ℤ → List ℤ → ℕ → ℕ → F → Option F
  product_loop v1 v2 i zero acc = some acc
  product_loop v1 v2 i (suc k) acc =
      at_both mul v1 v2 i >>= λ c. product_loop v1 v2 (suc i) k (plus acc (to_double c))

  unfoldable pub scalar_prod_main : Bool → F → Input → Ended F
  scalar_prod_main allocates zero_double input = elim (read_input allocates input) [
    | none ↦ exited_1
    | some (n, v1, v2) ↦ elim (product_loop v1 v2 0 n zero_double) [
      | none ↦ undefined
      | some r ↦ shows r
    ]
  ]

unfoldable pub sum_main : Input → Ended ℤ
sum_main input = elim (scanf input) [
  | none ↦ exited_1
  | some (a, more) ↦ elim (scanf more) [
    | none ↦ exited_1
    | some (b, rest) ↦ elim (add a b) [ none ↦ undefined | some c ↦ shows c ]
  ]
]

-- The loop of concat_nums.c: `b` does not change in it. `none`: `fuel` rounds were not enough; the
-- `p *= 10` that overflows is the last round.
unfoldable pub grow : ℕ → ℕ → ℕ → Option (Ended ℕ)
grow zero b p = none
grow (suc fuel) b p =
    let next = grow fuel b (p * 10) in
    if leb 10 b then (if ltb (p * 10) (2 ^ 31) then next else some undefined) else some (shows p)

-- What follows the loop.
unfoldable pub print_concat : ℕ → ℕ → Option (Ended ℕ) → Option (Ended ℕ)
print_concat a b none = none
print_concat a b (some (shows p)) =
    some (if ltb (a * p + b) (2 ^ 31) then shows (a * p + b) else undefined)
print_concat a b (some e) = some e

unfoldable pub concat_main : ℕ → Input → Option (Ended ℕ)
concat_main fuel input = elim (scanf input) [
  | none ↦ some exited_1
  | some (negsuc n, more) ↦ some exited_1
  | some (pos a, more) ↦ elim (scanf more) [
    | none ↦ some exited_1
    | some (negsuc n, rest) ↦ some exited_1
    | some (pos b, rest) ↦ print_concat a b (grow fuel b 10)
  ]
]
