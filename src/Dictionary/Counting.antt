-- ===== src/Dictionary/Counting.antt =====
-- How often a word stands in a part of the table, under writes to rows; no source code.
use os_5sem.Prelude.{
  ℕ, zero, suc, ◌+◌, ◌≤◌, ◌<◌, ◌≡◌, ◌≢◌, refl, ◌⊎◌, inl, inr, true, false, List, [], ◌∷◌, Option,
  none, some, if◌then◌else◌, arith, length, get_elem?, set, get_elem?-set_self, get_elem?-set_ne,
  ℕ_discrete, Bool-cases, get_elem?-some,
}
use os_5sem.Dictionary.Table.{Word, str_eq, find_row}

pub str_eq_refl : (w : Word) → str_eq w w ≡ true
unfolding str_eq
str_eq_refl [] = refl
str_eq_refl (c ∷ w) = ground (arith, str_eq_refl w)

pub str_eq_sound : (v w : Word) → str_eq v w ≡ true → v ≡ w
unfolding str_eq
str_eq_sound [] [] h = refl
str_eq_sound [] (d ∷ w) h = cc
str_eq_sound (c ∷ v) [] h = cc
str_eq_sound (c ∷ v) (d ∷ w) h = ground (arith, str_eq_sound v w)

-- 1 if the row holds the word.
abbrev pub hit : Word → Word → ℕ
hit w row = if str_eq w row then 1 else 0

abbrev pub hit? : Word → Option Word → ℕ
hit? w none = 0
hit? w (some row) = hit w row

-- How many of the `left` rows from `i` on hold the word.
unfoldable pub count : Word → List Word → ℕ → ℕ → ℕ
count w rows zero i = 0
count w rows (suc left) i = hit? w (get_elem? rows i) + count w rows left (i + 1)

pub count-last :
    (w : Word) (rows : List Word) (left i : ℕ)
    → count w rows (suc left) i ≡ count w rows left i + hit? w (get_elem? rows (i + left))
unfolding count
count-last w rows zero i = let e : i + 0 ≡ i = omega arith in rw e (omega arith)
count-last w rows (suc left) i =
    let e : i + suc left ≡ i + 1 + left = omega arith in
    rw e (omega (arith, count-last w rows left (i + 1)))

pub count-set_outside :
    (w : Word) (rows : List Word) (j : ℕ) (v : Word) (left i : ℕ)
    → (j < i) ⊎ (i + left ≤ j)
    → count w (set rows j v) left i ≡ count w rows left i
unfolding count
count-set_outside w rows j v zero i h = refl
count-set_outside w rows j v (suc left) i h =
    rw (get_elem?-set_ne rows v ne, count-set_outside w rows j v left (i + 1) (omega arith)) refl
  where
    ne : j ≢ i
    ne = omega arith

pub count-set :
    (w : Word) (rows : List Word) (j : ℕ) (v : Word) (left i : ℕ)
    → i ≤ j
    → j < i + left
    → j < length rows
    → count w (set rows j v) left i + hit? w (get_elem? rows j) ≡ count w rows left i + hit w v
unfolding count
count-set w rows j v zero i lo hi size = absurd (omega arith)
count-set w rows j v (suc left) i lo hi size = elim (ℕ_discrete j i) [
  | yes here ↦
      rw
        (
          ← here,
          get_elem?-set_self rows j v size,
          count-set_outside w rows j v left (j + 1) (inl (omega arith)),
        )
        (omega arith)
  | no later ↦
      rw (get_elem?-set_ne rows v later)
        (omega (arith, count-set w rows j v left (i + 1) (omega arith) (omega arith) size))
]

-- What a search of the `left` rows from `i` on may answer.
pub data Finds (w : Word) (rows : List Word) (left i : ℕ) : Option (Option ℕ) → Type 0 where
  at :
      (j : ℕ)
      → i ≤ j
      → j < i + left
      → get_elem? rows j ≡ some w
      → Finds w rows left i (some (some j))
  absent : count w rows left i ≡ 0 → Finds w rows left i (some none)

Finds-next :
    (w : Word) (rows : List Word) (left i : ℕ) (row : Word) {o : Option (Option ℕ)}
    → get_elem? rows i ≡ some row
    → str_eq w row ≡ false
    → Finds w rows left (i + 1) o
    → Finds w rows (suc left) i o
unfolding count
Finds-next w rows left i row e ne (at j lo hi q) = at j (omega arith) (omega arith) q
Finds-next w rows left i row e ne (absent z) = absent (rw (e, ne) (omega arith))

-- The loop of the server ends with the row of the word, or because no row holds it.
pub find_row-Finds :
    (w : Word) (rows : List Word) (left i : ℕ)
    → i + left ≤ length rows
    → Finds w rows left i (find_row w rows left i)
unfolding find_row
find_row-Finds w rows zero i h = absent (unfold count in refl)
find_row-Finds w rows (suc left) i h = elim (Bool-cases (str_eq w row)) [
  | inl same ↦
      rw (find_row, e, same) (at i (omega arith) (omega arith) (rw (str_eq_sound w row same) e))
  | inr other ↦
      rw (find_row, e, other)
        (Finds-next w rows left i row e other (find_row-Finds w rows left (i + 1) (omega arith)))
]
  where
    here : (row : Word) × (get_elem? rows i ≡ some row)
    here = get_elem?-some rows i (omega arith)

    row : Word
    row = here.0

    e : get_elem? rows i ≡ some row
    e = here.1
