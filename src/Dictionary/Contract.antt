-- ===== src/Dictionary/Contract.antt =====
-- The dictionary as a bag of words: what each operation of the server does to how often a word is
-- kept, whatever the order of the rows.
use os_5sem.Prelude.{
  ℕ, zero, suc, ◌+◌, ◌-◌, ◌≤◌, ◌<◌, ◌≡◌, refl, sym, ap, ◌∙◌, ◌⊎◌, inl, inr, true, List, [], Option,
  none, some, if◌then◌else◌, arith, length, get_elem?, set, length-set, get_elem?-set_self,
  get_elem?-set_ne, get_elem?-some, ℕ_discrete, replicate, ltb,
}
use os_5sem.Dictionary.Table.{
  Word, Dict, dict_siz, max_word, strcpy_row, empty_dict, initw, insertw, find_row, move_last,
  deletew, lookupw, found_reply, delete_found,
}
use os_5sem.Dictionary.Counting.{
  str_eq_refl, hit, hit?, count, count-last, count-set, count-set_outside, Finds, at, absent,
  find_row-Finds,
}

-- How often the dictionary keeps a word.
pub kept : Dict → Word → ℕ
kept d w = count w d.rows d.nwords 0

pub record IsValid (d : Dict) : Type 0 where
  pub size : length d.rows ≡ dict_siz
  pub fits : d.nwords ≤ dict_siz
  pub short : (i : ℕ) (row : Word) → get_elem? d.rows i ≡ some row → length row ≤ max_word

get_elem?-replicate : (n i : ℕ) (row w : Word) → get_elem? (replicate n w) i ≡ some row → row ≡ w
get_elem?-replicate zero i row w h = cc
get_elem?-replicate (suc n) zero row w h = cc
get_elem?-replicate (suc n) (suc i) row w h = get_elem?-replicate n i row w h

-- The program starts with a well-formed table.
pub empty_dict-IsValid : IsValid empty_dict
empty_dict-IsValid = record {
  size = refl;
  fits = omega arith;
  short = λ i row h. rw (get_elem?-replicate 100 i row [] h) (omega arith);
}

pub short-set :
    (rows : List Word) (j : ℕ) (v : Word)
    → length v ≤ max_word
    → ((i : ℕ) (row : Word) → get_elem? rows i ≡ some row → length row ≤ max_word)
    → j < length rows
    → (i : ℕ) (row : Word) → get_elem? (set rows j v) i ≡ some row
    → length row ≤ max_word
short-set rows j v small h size i row e = elim (ℕ_discrete j i) [
  | yes same ↦ ground (arith, get_elem?-set_self rows j v size)
  | no other ↦ h i row (rw (get_elem?-set_ne rows v other) at e)
]

-- One row more.
count-insert :
    (rows : List Word) (n : ℕ) (w x : Word)
    → n < length rows
    → count x (set rows n w) (n + 1) 0 ≡ count x rows n 0 + hit x w
count-insert rows n w x h = rw e (
    omega (
      arith,
      count-last x (set rows n w) n 0,
      count-set_outside x rows n w n 0 (inr (omega arith)),
      written,
    ))
  where
    e : n + 1 ≡ suc n
    e = omega arith

    written : hit? x (get_elem? (set rows n w) (0 + n)) ≡ hit x w
    written = let z : 0 + n ≡ n = omega arith in rw (z, get_elem?-set_self rows n w h)

-- The last row is moved to row `i`, and the table ends before it.
count-move_last :
    (rows : List Word) (n i : ℕ) (last w x : Word)
    → i < n
    → n ≤ length rows
    → get_elem? rows i ≡ some w
    → get_elem? rows (n - 1) ≡ some last
    → count x rows n 0 ≡ count x (set rows i last) (n - 1) 0 + hit x w
count-move_last rows n i last w x h size here end = elim (ℕ_discrete i (n - 1)) [
  | yes same ↦ omega (
    arith,
    whole,
    count-set_outside x rows i last (n - 1) 0 (inr (omega arith)),
    ap (hit? x) (sym end ∙ ap (get_elem? rows) (sym same) ∙ here),
  )
  | no other ↦ omega (
    arith,
    whole,
    count-set x rows i last (n - 1) 0 (omega arith) (omega arith) (omega arith),
    ap (hit? x) here,
  )
]
  where
    whole : count x rows n 0 ≡ count x rows (n - 1) 0 + hit x last
    whole =
        let e : n ≡ suc (n - 1) = omega arith in
        let z : 0 + (n - 1) ≡ n - 1 = omega arith in
        ap (λ k. count x rows k 0) e
        ∙ count-last x rows (n - 1) 0
        ∙ ap (λ k. count x rows (n - 1) 0 + hit? x (get_elem? rows k)) z
        ∙ ap (λ o. count x rows (n - 1) 0 + hit? x o) end

count-found :
    (rows : List Word) (n i : ℕ) (w : Word)
    → i < n
    → n ≤ length rows
    → get_elem? rows i ≡ some w
    → 0 < count w rows n 0
count-found rows n i w h size here =
    let (last, end) = get_elem?-some rows (n - 1) (omega arith) in
    ground (arith, count-move_last rows n i last w w h size here end, str_eq_refl w)

-- Inserting a word of at most 50 characters into a well-formed dictionary of fewer than 100 words
-- succeeds: the reply is the new number of words, the word is kept once more, every other word as
-- often as before, and the dictionary stays well formed.
pub insertw_lem :
    (w : Word) (d : Dict)
    → IsValid d
    → d.nwords < dict_siz
    → length w ≤ max_word
    → (d' : Dict) × (insertw w d ≡ some (d.nwords + 1, d'))
      × IsValid d'
      × ((x : Word) → kept d' x ≡ kept d x + hit x w)
unfolding insertw strcpy_row kept
insertw_lem w d v room small = (
  record { rows = set d.rows d.nwords w; nwords = d.nwords + 1 },
  ground (arith, v.size),
  record {
    size = length-set d.rows d.nwords w ∙ v.size;
    fits = omega arith;
    short = short-set d.rows d.nwords w small v.short (rw v.size room);
  },
  λ x. count-insert d.rows d.nwords w x (rw v.size room),
)

-- The loop runs within the table.
search_ends :
    (w : Word) (d : Dict) → IsValid d → Finds w d.rows d.nwords 0 (find_row w d.rows d.nwords 0)
search_ends w d v = find_row-Finds w d.rows d.nwords 0 (ground (arith, v.size, v.fits))

found_reply-Finds :
    (w : Word) (d : Dict) {o : Option (Option ℕ)}
    → IsValid d
    → Finds w d.rows d.nwords 0 o
    → found_reply o ≡ some (if ltb 0 (kept d w) then 1 else 0)
unfolding kept
found_reply-Finds w d v (at j lo hi e) =
    ground (arith, v.size, v.fits, count-found d.rows d.nwords j w)
found_reply-Finds w d v (absent z) = ground arith

-- The reply to a look-up in a well-formed dictionary is 1 exactly if the word is kept, and 0
-- otherwise.
pub lookupw_lem :
    (w : Word) (d : Dict) → IsValid d → lookupw w d ≡ some (if ltb 0 (kept d w) then 1 else 0)
unfolding lookupw
lookupw_lem w d v = found_reply-Finds w d v (search_ends w d v)

move_last_lem :
    (w : Word) (d : Dict) (i : ℕ) (last : Word)
    → IsValid d
    → i < d.nwords - 1
    → get_elem? d.rows i ≡ some w
    → get_elem? d.rows (d.nwords - 1) ≡ some last
    → (d' : Dict) × (move_last d i ≡ some (1, d'))
      × IsValid d'
      × ((x : Word) → kept d x ≡ kept d' x + hit x w)
unfolding move_last strcpy_row kept
move_last_lem w d i last v lt here end = (
  record { rows = set d.rows i last; nwords = d.nwords - 1 },
  ground (arith, small, v.fits, v.size),
  record {
    size = length-set d.rows i last ∙ v.size;
    fits = omega (arith, v.fits);
    short = short-set d.rows i last small v.short (rw v.size (omega (arith, v.fits)));
  },
  λ x. count-move_last d.rows d.nwords i last w x (omega arith) (rw v.size v.fits) here end,
)
  where
    small : length last ≤ max_word
    small = v.short (d.nwords - 1) last end

-- The row of a word is found likewise if the search may go on further.
find_row-longer :
    (w : Word) (rows : List Word) (left all i j : ℕ)
    → left ≤ all
    → find_row w rows left i ≡ some (some j)
    → find_row w rows all i ≡ some (some j)
unfolding find_row
find_row-longer w rows zero all i j le e = cc
find_row-longer w rows (suc left) zero i j le e = absurd (omega arith)
find_row-longer w rows (suc left) (suc all) i j le e =
    ground (arith, e, find_row-longer w rows left all (i + 1) j)

-- The word does not stand in the last row alone.
unfoldable pub IsMovable : Word → Dict → Type 0
IsMovable w d = (kept d w ≡ 0) ⊎ (0 < count w d.rows (d.nwords - 1) 0)

-- What a deletion does that answers `r`.
abbrev Deletes : Word → Dict → Option (ℕ × Dict) → Type 0
Deletes w d o =
    (d' : Dict) × (o ≡ some (if ltb 0 (kept d w) then 1 else 0, d'))
    × IsValid d'
    × ((x : Word) → kept d x ≡ kept d' x + (if ltb 0 (kept d w) then hit x w else 0))

row_found :
    (w : Word) (rows : List Word) (k : ℕ) {o : Option (Option ℕ)}
    → Finds w rows k 0 o
    → 0 < count w rows k 0
    → (j : ℕ) × (o ≡ some (some j)) × (j < k) × (get_elem? rows j ≡ some w)
row_found w rows k (at j lo hi e) h = (j, refl, omega arith, e)
row_found w rows k (absent z) h = absurd (omega (arith, z, h))

no_row :
    (w : Word) (rows : List Word) (k : ℕ) {o : Option (Option ℕ)}
    → k ≤ length rows
    → Finds w rows k 0 o
    → count w rows k 0 ≡ 0
    → o ≡ some none
no_row w rows k size (at j lo hi e) z =
    absurd (omega (arith, z, count-found rows k j w (omega arith) size e))
no_row w rows k size (absent z) h = refl

delete_absent :
    (w : Word) (d : Dict)
    → IsValid d
    → kept d w ≡ 0
    → Deletes w d (delete_found d (find_row w d.rows d.nwords 0))
delete_absent w d v no_word =
    let not_found : find_row w d.rows d.nwords 0 ≡ some none =
      no_row w d.rows d.nwords (rw v.size v.fits) (search_ends w d v) (unfold kept in no_word) in
    (d, rw (not_found, no_word) refl, v, λ x. rw no_word (omega arith))

delete_before_last :
    (w : Word) (d : Dict)
    → IsValid d
    → 0 < count w d.rows (d.nwords - 1) 0
    → Deletes w d (delete_found d (find_row w d.rows d.nwords 0))
delete_before_last w d v stands =
    let before = find_row-Finds w d.rows (d.nwords - 1) 0 (ground (arith, v.size, v.fits)) in
    let (j, found, lt, here) = row_found w d.rows (d.nwords - 1) before stands in
    let found_too : find_row w d.rows d.nwords 0 ≡ some (some j) =
      find_row-longer w d.rows (d.nwords - 1) d.nwords 0 j (omega arith) found in
    let (last, end) = get_elem?-some d.rows (d.nwords - 1) (ground (arith, v.fits, v.size)) in
    let some_kept : ltb 0 (kept d w) ≡ true =
      unfold kept in ground (arith, v.size, v.fits, count-found d.rows d.nwords j w) in
    let (d', done, valid, counts) = move_last_lem w d j last v lt here end in
    (d', rw (found_too, done, some_kept) refl, valid, λ x. rw some_kept (counts x))

-- Deleting a kept word from a well-formed dictionary answers 1, drops one of its occurrences and
-- keeps every other word as often as before, if the word does not stand in the last row alone;
-- deleting a word that is not kept answers 0 and keeps every word as often as before. The dictionary
-- stays well formed.
pub deletew_lem :
    (w : Word) (d : Dict)
    → IsValid d
    → IsMovable w d
    → (d' : Dict) × (deletew w d ≡ some (if ltb 0 (kept d w) then 1 else 0, d'))
      × IsValid d'
      × ((x : Word) → kept d x ≡ kept d' x + (if ltb 0 (kept d w) then hit x w else 0))
unfolding deletew IsMovable
deletew_lem w d v (inl no_word) = delete_absent w d v no_word
deletew_lem w d v (inr stands) = delete_before_last w d v stands

-- Initialising forgets every word and answers 1, and the dictionary stays well formed.
pub initw_lem :
    (d : Dict)
    → IsValid d
    → ((initw d).0 ≡ 1) × IsValid (initw d).1 × ((x : Word) → kept (initw d).1 x ≡ 0)
unfolding initw kept count
initw_lem d v = (refl, record { size = v.size; fits = omega arith; short = v.short }, λ x. refl)
