-- ===== src/WinEvents/Arrays.antt =====
-- lab_win/winwr.c, `main`: the arrays of the threads' handles and numbers against the loops that fill
-- them. The arrays of the readers have the size of the writers, and those of the writers the size of
-- the readers.
use os_5sem.Prelude.{
  [], ◌∷◌, ℕ, zero, suc, ◌≡◌, refl, Option, none, some, List, ltb, if◌then◌else◌, ◌>>=◌, length,
  set, replicate,
}
use os_5sem.WinEvents.{readers_num, writers_num}

-- `ids[i] = i` for the first `n` indices; `none` for a store past the array.
unfoldable pub fill : List ℕ → ℕ → Option (List ℕ)
fill ids zero = some ids
fill ids (suc i) =
    fill ids i >>= λ before. if ltb i (length before) then some (set before i i) else none

abbrev pub readers_id : Option (List ℕ)
readers_id = fill (replicate writers_num 0) readers_num

abbrev pub writers_id : Option (List ℕ)
writers_id = fill (replicate readers_num 0) writers_num

-- The numbers of the readers fit their array; that of the last writer is stored past its array.
pub writers_overrun : (readers_id ≡ some (0 ∷ 1 ∷ 2 ∷ 3 ∷ 4 ∷ 0 ∷ [])) × (writers_id ≡ none)
unfolding fill
writers_overrun = (refl, refl)
