-- ===== src/Dictionary/Session.antt =====
-- os_lab_rpc/threads_rpc/dict_client.c: the loop over the commands, with the procedures of the server
-- that it calls. Each call comes through, and gets its reply.
use os_5sem.Prelude.{
  ℕ, zero, suc, ◌+◌, ◌≤◌, ◌<◌, ◌≡◌, ◌≢◌, refl, ◌∙◌, Bool, true, false, List, [], ◌∷◌, ◌++◌, Option,
  none, some, ◌==◌, ltb, if◌then◌else◌, length, arith, Option-cases, Bool-cases, inl, inr,
}
use os_5sem.Dictionary.Table.{str_eq, Word, Dict, dict_siz, insertw, lookupw}
use os_5sem.Dictionary.Counting.{hit}
use os_5sem.Dictionary.Contract.{IsValid, kept, insertw_lem, lookupw_lem}
use os_5sem.Dictionary.Input.{
  Next, ended, command, too_long, overruns, fits_buf, longer, maxword, skip, word_loop, read_word,
  after_command, nextin, IsWord, IsGap, nextin_lem, none_left, space,
}
use os_5sem.Dictionary.Request.{initw_1, insertw_1, deletew_1, lookupw_1, local_svc}

-- What is printed for a command.
pub data Shown : Type 0 where
  initialized not_initialized inserted not_inserted deleted not_deleted : Shown
  found not_found : Word → Shown
  invalid : Shown

abbrev pub told : Shown → Shown → Bool → Shown
told yes_text no_text b = if b then yes_text else no_text

abbrev pub replies : (ℕ → Shown) → Option (ℕ × Dict) → Option (Shown × Dict)
replies f none = none
replies f (some (r, d)) = some (f r, d)

-- The switch over the command, without 'q'; `none` where a procedure of the server is undefined.
unfoldable pub obey : ℕ → Word → Dict → Option (Shown × Dict)
obey cmd w d =
    if cmd == b'I'
    then replies (λ r. told initialized not_initialized (r == 1)) (local_svc initw_1 w d)
    else if cmd == b'i'
    then replies (λ r. told inserted not_inserted (ltb 0 r)) (local_svc insertw_1 w d)
    else if cmd == b'd'
    then replies (λ r. told deleted not_deleted (r == 1)) (local_svc deletew_1 w d)
    else if cmd == b'l'
    then replies (λ r. told (found w) (not_found w) (r == 1)) (local_svc lookupw_1 w d)
    else some (invalid, d)

-- How a session ends, with the exit status, the dictionary and what was shown, the last first.
pub data Session : Type 0 where
  out_of_fuel crashed : Session
  exits : ℕ → Dict → List Shown → Session

str_eq_refl : (w : Word) → str_eq w w ≡ true
unfolding str_eq
str_eq_refl [] = refl
str_eq_refl (c ∷ w) = ground (arith, str_eq_refl w)

hit_self : (w : Word) → hit w w ≡ 1
hit_self w = rw (str_eq_refl w) refl

module _ (isspace : ℕ → Bool) (stray : List ℕ → ℕ) where
  -- `fuel` bounds the number of commands.
  unfoldable pub rdictprog_1 : ℕ → List ℕ → Dict → List Shown → Session
  rdictprog_1 zero input d shown = out_of_fuel
  rdictprog_1 (suc fuel) input d shown = elim (nextin isspace stray input) [
    | ended ↦ exits 0 d shown
    | too_long ↦ exits 1 d shown
    | overruns ↦ crashed
    | command cmd w rest ↦ if cmd == b'q' then exits 0 d shown else elim (obey cmd w d) [
      | none ↦ crashed
      | some (s, e) ↦ rdictprog_1 fuel rest e (s ∷ shown)
    ]
  ]

  one_command :
      (fuel cmd : ℕ) (input w rest : List ℕ) (d e : Dict) (s : Shown) (shown : List Shown)
      → nextin isspace stray input ≡ command cmd w rest
      → (cmd == b'q') ≡ false
      → obey cmd w d ≡ some (s, e)
      → rdictprog_1 (suc fuel) input d shown ≡ rdictprog_1 fuel rest e (s ∷ shown)
  unfolding rdictprog_1
  one_command fuel cmd input w rest d e s shown reads goes_on obeys =
      ground (arith, reads, goes_on, obeys)

  obey_insert :
      (w : Word) (d e : Dict) (n : ℕ)
      → insertw w d ≡ some (suc n, e)
      → obey b'i' w d ≡ some (inserted, e)
  unfolding obey
  obey_insert w d e n ran = ground (arith, ran)

  obey_lookup : (w : Word) (d : Dict) → lookupw w d ≡ some 1 → obey b'l' w d ≡ some (found w, d)
  unfolding obey
  obey_lookup w d ran = ground (arith, ran)

  -- A word of 1 to 50 characters that is inserted into a well-formed dictionary of fewer than 100
  -- words, and looked up by the next command, is found; then the session goes on with the rest of the
  -- input and a well-formed dictionary. The calls come through, and `isspace` is true of a blank and
  -- of a line's end and false of the commands and of the characters of the word; what stands in memory
  -- behind a command always fits `buf`.
  pub insert_then_found :
      (fuel : ℕ) (w rest : List ℕ) (d : Dict) (shown : List Shown)
      → ((input : List ℕ) → fits_buf stray input ≡ true)
      → isspace b'\n' ≡ true
      → isspace b' ' ≡ true
      → isspace b'i' ≡ false
      → isspace b'l' ≡ false
      → IsWord isspace w
      → length w ≤ maxword
      → IsValid d
      → d.nwords < dict_siz
      → (e : Dict) × (rdictprog_1
            (suc (suc fuel))
            (b'i' ∷ (b' ' ∷ (w ++ b'\n' ∷ (b'l' ∷ (b' ' ∷ (w ++ b'\n' ∷ rest))))))
            d
            shown
          ≡ rdictprog_1 fuel rest e (found w ∷ inserted ∷ shown))
        × IsValid e
  insert_then_found fuel w rest d shown low newline blank i_black l_black word fits valid room =
      let second = b'l' ∷ (b' ' ∷ (w ++ b'\n' ∷ rest)) in
      let gap : IsGap isspace (b' ' ∷ []) = space blank none_left in
      let reads1 =
        nextin_lem isspace stray [] (b' ' ∷ []) w second b'i' b'\n' (low _) newline refl i_black
          none_left gap word newline fits in
      let reads2 =
        nextin_lem isspace stray [] (b' ' ∷ []) w rest b'l' b'\n' (low _) newline refl l_black
          none_left gap word newline fits in
      let (e, ran, valid', counts) = insertw_lem w d valid room fits in
      let has : 0 < kept e w = omega (arith, counts w, hit_self w) in
      let looks : lookupw w e ≡ some 1 = lookupw_lem w e valid' ∙ ground (arith, has) in
      (
        e,
        one_command (suc fuel) b'i' _ w second d e inserted shown reads1 refl
              (obey_insert w d e d.nwords (ran ∙ ground arith))
            ∙ one_command fuel b'l' second w rest e e (found w) (inserted ∷ shown) reads2 refl
                (obey_lookup w e looks),
        valid',
      )

  -- Each command takes a character of the input at least, so that more fuel than characters is enough
  -- for a session to end.
  skip-shorter : (input : List ℕ) → length (skip isspace input) ≤ length input
  unfolding skip
  skip-shorter [] = omega arith
  skip-shorter (ch ∷ input) = ground (arith, skip-shorter input)

  word_loop-shorter :
      (cmd i : ℕ) (input : List ℕ) (c : ℕ) (w rest : List ℕ)
      → word_loop isspace cmd i input ≡ command c w rest
      → length rest < length input
  unfolding word_loop
  word_loop-shorter cmd i [] c w rest e = cc
  word_loop-shorter cmd i (ch ∷ input) c w rest e = elim (Bool-cases (isspace ch)) [
    | inl white ↦ ground (arith, white)
    | inr black ↦ elim (Bool-cases (ltb maxword (i + 1))) [
      | inl long ↦ ground (arith, black, long)
      | inr fits ↦
          let (w', inner) =
            unlonger ch (word_loop isspace cmd (i + 1) input) c w rest
              (ground (arith, black, fits)) in
          omega (arith, word_loop-shorter cmd (i + 1) input c w' rest inner)
    ]
  ]
    where
      unlonger :
          (ch : ℕ) (n : Next) (c : ℕ) (w rest : List ℕ)
          → longer ch n ≡ command c w rest
          → (w' : List ℕ) × (n ≡ command c w' rest)
      unlonger ch ended c w rest e = cc
      unlonger ch too_long c w rest e = cc
      unlonger ch overruns c w rest e = cc
      unlonger ch (command c' w' r') c w rest e = (w', cc)

  read_word-shorter :
      (cmd : ℕ) (input : List ℕ) (c : ℕ) (w rest : List ℕ)
      → read_word isspace cmd input ≡ command c w rest
      → length rest < length input
  unfolding read_word
  read_word-shorter cmd [] c w rest e = cc
  read_word-shorter cmd (ch ∷ input) c w rest e =
      ground (arith, word_loop-shorter cmd 0 (ch ∷ input) c w rest)

  after_command-shorter :
      (input : List ℕ) (c : ℕ) (w rest : List ℕ)
      → after_command isspace stray input ≡ command c w rest
      → length rest < length input
  unfolding after_command
  after_command-shorter [] c w rest e = cc
  after_command-shorter (ch ∷ input) c w rest e =
      ground (arith, read_word-shorter ch (skip isspace input) c w rest, skip-shorter input)

  nextin-shorter :
      (input : List ℕ) (c : ℕ) (w rest : List ℕ)
      → nextin isspace stray input ≡ command c w rest
      → length rest < length input
  unfolding nextin
  nextin-shorter input c w rest e =
      omega (arith, after_command-shorter (skip isspace input) c w rest e, skip-shorter input)

  command_ends :
      (fuel : ℕ) (input : List ℕ) (d : Dict) (shown : List Shown) (n : Next)
      → nextin isspace stray input ≡ n
      → length input < suc fuel
      → ((rest : List ℕ) (e : Dict) (shown' : List Shown)
          → length rest < fuel
          → rdictprog_1 fuel rest e shown' ≢ out_of_fuel)
      → rdictprog_1 (suc fuel) input d shown ≢ out_of_fuel
  unfolding rdictprog_1
  command_ends fuel input d shown ended e h next = λ q. ground (arith, e)
  command_ends fuel input d shown too_long e h next = λ q. ground (arith, e)
  command_ends fuel input d shown overruns e h next = λ q. ground (arith, e)
  command_ends fuel input d shown (command cmd w rest) e h next =
      elim (Option-cases (obey cmd w d)) [
        | inl undefined ↦ λ q. ground (arith, e, undefined)
        | inr ((s, d'), obeys) ↦ λ q. ground (
          arith,
          e,
          obeys,
          next rest d' (s ∷ shown) (omega (arith, nextin-shorter input cmd w rest e)),
        )
      ]

  -- A session ends, or comes to a call of sprintf that overruns `buf` or to a procedure of the server
  -- that is undefined, if the number of its
  -- commands may be greater than that of the characters of the input.
  pub session_ends :
      (fuel : ℕ) (input : List ℕ) (d : Dict) (shown : List Shown)
      → length input < fuel
      → rdictprog_1 fuel input d shown ≢ out_of_fuel
  session_ends zero input d shown h = absurd (omega arith)
  session_ends (suc fuel) input d shown h =
      command_ends fuel input d shown (nextin isspace stray input) refl h (session_ends fuel)
