-- ===== src/Dictionary/Lost.antt =====
-- os_lab_rpc/threads_rpc: insertw of dict_server.c in the threads that dict_svc.c creates for the
-- requests. No lock orders them: a step is the copy of the word, or one access to nwords.
use os_5sem.Prelude.{
  ℕ, zero, suc, ◌+◌, ◌≤◌, ◌<◌, ◌≡◌, ◌≢◌, ◌∙◌, refl, ap, List, [], ◌∷◌, Option, none, some, length,
  set, arith, length-set,
}
use os_5sem.Prelude.Family.{update}
use os_5sem.Dictionary.Table.{Word, Dict, dict_siz, max_word, strcpy_row}
use os_5sem.Dictionary.Contract.{IsValid}

pub data Pc : Type 0 where
  copies : Pc  -- strcpy(dict[nwords], word)
  loads : Pc  -- nwords++
  stores : ℕ → Pc
  returns : Pc  -- return(nwords)
  replied : ℕ → Pc

-- `none` for a copy past the table, and for a request that is over.
unfoldable pub insertw_step : Word → Dict → Pc → Option (Dict × Pc)
insertw_step w d copies = elim (strcpy_row d.rows d.nwords w) [
  | none ↦ none
  | some rows ↦ some (record { rows = rows; nwords = d.nwords }, loads)
]
insertw_step w d loads = some (d, stores d.nwords)
insertw_step w d (stores n) = some (record { rows = d.rows; nwords = n + 1 }, returns)
insertw_step w d returns = some (d, replied d.nwords)
insertw_step w d (replied n) = none

pub record System : Type 0 where
  pub dict : Dict
  pub pc : ℕ → Pc

-- Thread `i` inserts the word `words i`.
pub data Reach (words : ℕ → Word) (d : Dict) : System → Type 0 where
  start : Reach words d (record { dict = d; pc = λ _. copies })
  later :
      {s : System} {u : Dict × Pc} (i : ℕ)
      → Reach words d s
      → insertw_step (words i) s.dict (s.pc i) ≡ some u
      → Reach words d (record { dict = u.0; pc = update s.pc i u.1 })

set-set : {A : Type 0} (xs : List A) (i : ℕ) (a b : A) → set (set xs i a) i b ≡ set xs i b
set-set [] i a b = refl
set-set (x ∷ xs) zero a b = refl
set-set (x ∷ xs) (suc i) a b = ap (λ l. x ∷ l) (set-set xs i a b)

module _ (words : ℕ → Word) (d : Dict) where
  step_to :
      (i : ℕ) (e : Dict) (pc : ℕ → Pc) (c : Pc) (e' : Dict) (c' : Pc)
      → Reach words d (record { dict = e; pc = pc })
      → pc i ≡ c
      → insertw_step (words i) e c ≡ some (e', c')
      → Reach words d (record { dict = e'; pc = update pc i c' })
  step_to i e pc c e' c' r at ran = later i r (ap (insertw_step (words i) e) at ∙ ran)

  -- Two threads that insert their words into a well-formed table with room for both can come to the
  -- end with replies of success, where the second word stands in the row of the first, and the next
  -- row, which is counted too, is as it was.
  pub lost_insert :
      (i j : ℕ)
      → i ≢ j
      → IsValid d
      → d.nwords + 1 < dict_siz
      → length (words i) ≤ max_word
      → length (words j) ≤ max_word
      → (s : System) × Reach words d s
        × (s.pc i ≡ replied (d.nwords + 1))
        × (s.pc j ≡ replied (d.nwords + 2))
        × (s.dict ≡ record { rows = set d.rows d.nwords (words j); nwords = d.nwords + 2 })
  unfolding insertw_step strcpy_row
  lost_insert i j ne v room short_i short_j =
      let n = d.nwords in
      let d1 : Dict = record { rows = set d.rows n (words i); nwords = n } in
      let pc1 = update (λ _. copies) i loads in
      let r1 = step_to i d (λ _. copies) copies d1 loads start refl (ground (arith, v.size)) in
      let d2 : Dict = record { rows = set d.rows n (words j); nwords = n } in
      let pc2 = update pc1 j loads in
      let r2 = step_to j d1 pc1 copies d2 loads r1 (ground arith) (
        ground
          (arith, v.size, length-set d.rows n (words i), set-set d.rows n (words i) (words j))) in
      let pc3 = update pc2 i (stores n) in
      let r3 = step_to i d2 pc2 loads d2 (stores n) r2 (ground arith) refl in
      let d4 : Dict = record { rows = set d.rows n (words j); nwords = n + 1 } in
      let pc4 = update pc3 i returns in
      let r4 = step_to i d2 pc3 (stores n) d4 returns r3 (ground arith) refl in
      let pc5 = update pc4 i (replied (n + 1)) in
      let r5 = step_to i d4 pc4 returns d4 (replied (n + 1)) r4 (ground arith) refl in
      let pc6 = update pc5 j (stores (n + 1)) in
      let r6 = step_to j d4 pc5 loads d4 (stores (n + 1)) r5 (ground arith) refl in
      let d7 : Dict = record { rows = set d.rows n (words j); nwords = n + 2 } in
      let pc7 = update pc6 j returns in
      let r7 = step_to j d4 pc6 (stores (n + 1)) d7 returns r6 (ground arith) (ground arith) in
      let pc8 = update pc7 j (replied (n + 2)) in
      let r8 = step_to j d7 pc7 returns d7 (replied (n + 2)) r7 (ground arith) refl in
      (record { dict = d7; pc = pc8 }, r8, ground arith, ground arith, refl)
