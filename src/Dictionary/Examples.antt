-- ===== src/Dictionary/Examples.antt =====
-- The dictionary runs, and the theorems about it at concrete tables.
use os_5sem.Dictionary.Input.{command, nextin, nextin_lem, none_left, space, last, more}
use os_5sem.Dictionary.Session.{
  found, inserted, out_of_fuel, rdictprog_1, insert_then_found, session_ends,
}
use os_5sem.Dictionary.Lost.{System, Reach, replied as finished, lost_insert}
use os_5sem.Dictionary.Request.{
  Transport, Served, serv_request, insertw_1, system_error, serv_request_lem,
}
use os_5sem.Prelude.{
  ◌++◌, ◌≢◌, true, false, ℕ, Bool, ◌==◌, ◌||◌, ◌+◌, ◌≡◌, refl, inr, List, [], ◌∷◌, none, some,
  replicate, if◌then◌else◌, ltb, arith, set,
}
use os_5sem.Dictionary.Table.{
  Word, Dict, dict_siz, empty_dict, insertw, deletew, lookupw, find_row, move_last, str_eq,
  strcpy_row,
}
use os_5sem.Dictionary.Counting.{hit, count}
use os_5sem.Dictionary.Contract.{
  kept, IsValid, IsMovable, empty_dict-IsValid, short-set, insertw_lem, deletew_lem,
}

abbrev cat : Word
cat = b'c' ∷ b'a' ∷ b't' ∷ []

abbrev dog : Word
dog = b'd' ∷ b'o' ∷ b'g' ∷ []

insertw_lem_example :
    (d' : Dict) × (insertw cat empty_dict ≡ some (1, d'))
    × IsValid d'
    × ((x : Word) → kept d' x ≡ kept empty_dict x + hit x cat)
insertw_lem_example = insertw_lem cat empty_dict empty_dict-IsValid (omega arith) (omega arith)

-- Two words in the first rows of the table.
abbrev two_words : Dict
two_words = record { rows = set (set (replicate dict_siz []) 0 cat) 1 dog; nwords = 2 }

two_words-IsValid : IsValid two_words
two_words-IsValid = record {
  size = refl;
  fits = omega arith;
  short =
      short-set (set (replicate dict_siz []) 0 cat) 1 dog (omega arith)
        (short-set (replicate dict_siz []) 0 cat (omega arith) empty_dict-IsValid.short
          (omega arith))
        (omega arith);
}

cat-IsMovable : IsMovable cat two_words
unfolding IsMovable count str_eq
cat-IsMovable = inr (omega arith)

deletew_lem_example :
    (d' : Dict) × (deletew cat two_words ≡ some (if ltb 0 (kept two_words cat) then 1 else 0, d'))
    × IsValid d'
    × ((x : Word)
        → kept two_words x ≡ kept d' x + (if ltb 0 (kept two_words cat) then hit x cat else 0))
deletew_lem_example = deletew_lem cat two_words two_words-IsValid cat-IsMovable

lookup_dog : lookupw dog two_words ≡ some 1
unfolding lookupw find_row str_eq
lookup_dog = refl

-- The last word takes the place of the deleted one.
delete_cat :
    deletew cat two_words
    ≡ some (1, record { rows = set (set (replicate dict_siz []) 0 dog) 1 dog; nwords = 1 })
unfolding deletew find_row str_eq move_last strcpy_row
delete_cat = refl

-- Deleting the word of the last row copies that row onto itself.
delete_dog : deletew dog two_words ≡ none
unfolding deletew find_row str_eq move_last
delete_dog = refl

-- The white space of the input: a blank or the end of a line.
abbrev is_blank : ℕ → Bool
is_blank c = (c == b' ') || (c == b'\n')

-- The next byte in memory is a zero.
abbrev room : List ℕ → ℕ
room input = 0

nextin_lem_example :
    nextin is_blank room (b'\n' ∷ b'i' ∷ b' ' ∷ b'o' ∷ b's' ∷ b'\n' ∷ b'q' ∷ [])
    ≡ command b'i' (b'o' ∷ b's' ∷ []) (b'q' ∷ [])
nextin_lem_example =
    nextin_lem is_blank room (b'\n' ∷ []) (b' ' ∷ []) (b'o' ∷ b's' ∷ []) (b'q' ∷ []) b'i' b'\n' refl
      refl refl refl (space refl none_left) (space refl none_left) (more refl (last refl)) refl
      (omega arith)

-- A request whose reply gets lost.
abbrev lossy : Transport
lossy = record { decodes = true; word = cat; sends = false; frees = true }

serv_request_lem_example :
    (u : Served) × (serv_request insertw_1 lossy empty_dict ≡ some u)
    × IsValid u.dict
    × (u.answer ≡ system_error)
    × ((x : Word) → kept u.dict x ≡ kept empty_dict x + hit x cat)
    × (u.exits ≡ false)
serv_request_lem_example =
    serv_request_lem insertw_1 lossy empty_dict empty_dict-IsValid (omega arith, omega arith)

abbrev os : Word
os = b'o' ∷ b's' ∷ []

insert_then_found_example :
    (e : Dict) × (rdictprog_1 is_blank room 3
        (b'i' ∷ (b' ' ∷ (os ++ b'\n' ∷ (b'l' ∷ (b' ' ∷ (os ++ b'\n' ∷ (b'q' ∷ [])))))))
        empty_dict
        []
      ≡ rdictprog_1 is_blank room 1 (b'q' ∷ []) e (found os ∷ inserted ∷ []))
    × IsValid e
insert_then_found_example =
    insert_then_found is_blank room 1 os (b'q' ∷ []) empty_dict [] (λ input. refl) refl refl refl
      refl (more refl (last refl)) (omega arith) empty_dict-IsValid (omega arith)

session_ends_example :
    rdictprog_1 is_blank room 5 (b'l' ∷ b'\n' ∷ b'I' ∷ b'x' ∷ []) empty_dict [] ≢ out_of_fuel
session_ends_example =
    session_ends is_blank room 5 (b'l' ∷ b'\n' ∷ b'I' ∷ b'x' ∷ []) empty_dict [] (omega arith)

-- Thread 0 inserts the cat, thread 1 the dog.
abbrev pets : ℕ → Word
pets i = if i == 0 then cat else dog

lost_insert_example :
    (s : System) × Reach pets empty_dict s
    × (s.pc 0 ≡ finished 1)
    × (s.pc 1 ≡ finished 2)
    × (s.dict ≡ record { rows = set empty_dict.rows 0 dog; nwords = 2 })
lost_insert_example =
    lost_insert pets empty_dict 0 1 (omega arith) empty_dict-IsValid (omega arith) (omega arith)
      (omega arith)
