-- ===== src/Dictionary/Table.antt =====
-- os_lab_rpc/threads_rpc/dict_server.c: the table and the procedures on it. A C string is the list of
-- its characters before the final zero. An operation is `none` where the C code is undefined: a row
-- that the table does not have, a word that does not fit its row, or a row that is copied onto itself.
use os_5sem.Prelude.{
  ℕ, zero, suc, ◌+◌, ◌-◌, Bool, true, false, ◌&&◌, List, [], ◌∷◌, Option, none, some, ltb, leb,
  ◌==◌, if◌then◌else◌, length, get_elem?, set, replicate,
}

abbrev pub dict_siz : ℕ
dict_siz = 100

abbrev pub max_word : ℕ
max_word = 50

abbrev pub Word : Type 0
Word = List ℕ

-- `dict` and `nwords`
pub record Dict : Type 0 where
  pub rows : List Word
  pub nwords : ℕ

-- strcmp(a, b) == 0
unfoldable pub str_eq : Word → Word → Bool
str_eq [] [] = true
str_eq [] (d ∷ b) = false
str_eq (c ∷ a) [] = false
str_eq (c ∷ a) (d ∷ b) = c == d && str_eq a b

-- strcpy(dict[i], word)
unfoldable pub strcpy_row : List Word → ℕ → Word → Option (List Word)
strcpy_row rows i word =
    if ltb i (length rows) && leb (length word) max_word then some (set rows i word) else none

-- The table as the program starts.
abbrev pub empty_dict : Dict
empty_dict = record { rows = replicate dict_siz []; nwords = 0 }

unfoldable pub initw : Dict → ℕ × Dict
initw d = (1, record d { nwords = 0 })

unfoldable pub insertw : Word → Dict → Option (ℕ × Dict)
insertw word d = elim (strcpy_row d.rows d.nwords word) [
  | none ↦ none
  | some rows ↦ some (d.nwords + 1, record { rows = rows; nwords = d.nwords + 1 })
]

-- The loop of `deletew` and `lookupw`, with `left` rounds to go at row `i`: the row of the word, if
-- it is found.
unfoldable pub find_row : Word → List Word → ℕ → ℕ → Option (Option ℕ)
find_row word rows zero i = some none
find_row word rows (suc left) i = elim (get_elem? rows i) [
  | none ↦ none
  | some row ↦ elim (str_eq word row) [
    | true ↦ some (some i)
    | false ↦ find_row word rows left (i + 1)
  ]
]

-- The body of the loop of `deletew` at the row of the word. Where that is the last row, strcpy copies
-- the row onto itself, which is undefined.
unfoldable pub move_last : Dict → ℕ → Option (ℕ × Dict)
move_last d i = if i == d.nwords - 1 then none else elim (get_elem? d.rows (d.nwords - 1)) [
  | none ↦ none
  | some last ↦ elim (strcpy_row d.rows i last) [
    | none ↦ none
    | some rows ↦ some (1, record { rows = rows; nwords = d.nwords - 1 })
  ]
]

-- What follows the loop in each of the two.
abbrev pub delete_found : Dict → Option (Option ℕ) → Option (ℕ × Dict)
delete_found d none = none
delete_found d (some none) = some (0, d)
delete_found d (some (some i)) = move_last d i

abbrev pub found_reply : Option (Option ℕ) → Option ℕ
found_reply none = none
found_reply (some none) = some 0
found_reply (some (some i)) = some 1

unfoldable pub deletew : Word → Dict → Option (ℕ × Dict)
deletew word d = delete_found d (find_row word d.rows d.nwords 0)

unfoldable pub lookupw : Word → Dict → Option ℕ
lookupw word d = found_reply (find_row word d.rows d.nwords 0)
