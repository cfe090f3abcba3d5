-- ===== src/Dictionary/Input.antt =====
-- os_lab_rpc/threads_rpc/dict_client.c: the function that reads a command and its word from the
-- standard input.
use os_5sem.Prelude.{
  ℕ, ◌+◌, ◌≤◌, ◌≡◌, Bool, true, false, List, [], ◌∷◌, ◌++◌, ◌==◌, ltb, not, ◌||◌, if◌then◌else◌,
  length, arith, ap, ◌∙◌, Bool-cases, inl, inr, dec_lt, ℕ_discrete,
}

abbrev pub maxword : ℕ
maxword = 50

-- The end of the input is the end of the list: getc returns EOF there, as often as it is called.
pub data Next : Type 0 where
  ended : Next  -- -1
  command : ℕ → List ℕ → List ℕ → Next  -- buf[0], the word, and the rest of the input
  too_long : Next  -- "Error word to long", and exit(1)
  overruns : Next  -- sprintf writes past `buf`

-- sprintf(buf, "%s", cmd) copies the command, which no zero follows, with the characters that stand in
-- memory behind it, up to a zero: `stray` says how many they are, by the input that is then left. `buf`
-- has 80 places.
abbrev pub fits_buf : (List ℕ → ℕ) → List ℕ → Bool
fits_buf stray input = ltb (stray input + 1) 80

-- The command and the loop's word behind one more character of it.
abbrev pub longer : ℕ → Next → Next
longer ch (command cmd word rest) = command cmd (ch ∷ word) rest
longer ch other = other

-- `isspace` is that of the library; it is false of EOF.
module _ (isspace : ℕ → Bool) where
  -- while(isspace(ch)) ch=getc(stdin); the list begins with the `ch` that is then current.
  unfoldable pub skip : List ℕ → List ℕ
  skip [] = []
  skip (ch ∷ input) = if isspace ch then skip input else ch ∷ input

  -- The loop over the characters of the word, with its `i`. At the end of the input the loop goes
  -- on with the character EOF, until the word is too long.
  unfoldable pub word_loop : ℕ → ℕ → List ℕ → Next
  word_loop cmd i [] = too_long
  word_loop cmd i (ch ∷ input) =
      let rest = word_loop cmd (i + 1) input in
      if isspace ch
      then command cmd [] input
      else if ltb maxword (i + 1)
      then too_long
      else longer ch rest

  -- What follows the prompt for a word.
  unfoldable pub read_word : ℕ → List ℕ → Next
  read_word cmd [] = ended
  read_word cmd (ch ∷ input) =
      if ch == b'\n' then command cmd [] input else word_loop cmd 0 (ch ∷ input)

  unfoldable pub after_command : (List ℕ → ℕ) → List ℕ → Next
  after_command stray [] = ended
  after_command stray (ch ∷ input) =
      if not (fits_buf stray input)
      then overruns
      else if (ch == b'q') || (ch == b'I')
      then command ch [] input
      else if (ch == b'i') || (ch == b'l') || (ch == b'd')
      then read_word ch (skip input)
      else command ch [] input

  unfoldable pub nextin : (List ℕ → ℕ) → List ℕ → Next
  nextin stray input = after_command stray (skip input)

  -- The characters of a word, none of them white space.
  pub data IsWord : List ℕ → Type 0 where
    last : {c : ℕ} → isspace c ≡ false → IsWord (c ∷ [])
    more : {c : ℕ} {w : List ℕ} → isspace c ≡ false → IsWord w → IsWord (c ∷ w)

  word_loop_lem :
      (cmd i : ℕ) (w rest : List ℕ) (sp : ℕ)
      → IsWord w
      → isspace sp ≡ true
      → i + length w ≤ maxword
      → word_loop cmd i (w ++ sp ∷ rest) ≡ command cmd w rest
  unfolding word_loop
  word_loop_lem cmd i _ rest sp (last {c} black) white fits = ground (arith, black, white)
  word_loop_lem cmd i _ rest sp (more {c} {w} black word) white fits =
      ground (arith, black, word_loop_lem cmd (i + 1) w rest sp word white (omega (arith, fits)))

  -- White space, of any length.
  pub data IsGap : List ℕ → Type 0 where
    none_left : IsGap []
    space : {c : ℕ} {g : List ℕ} → isspace c ≡ true → IsGap g → IsGap (c ∷ g)

  skip_gap :
      (gap : List ℕ) (c : ℕ) (input : List ℕ)
      → IsGap gap
      → isspace c ≡ false
      → skip (gap ++ c ∷ input) ≡ c ∷ input
  unfolding skip
  skip_gap _ c input none_left black = ground (arith, black)
  skip_gap _ c input (space {c = sp} {g = gap} white g) black =
      ground (arith, white, skip_gap gap c input g black)

  -- The word behind a gap, where white space follows it.
  read_lem :
      (cmd : ℕ) (gap w rest : List ℕ) (sp : ℕ)
      → isspace b'\n' ≡ true
      → IsGap gap
      → IsWord w
      → isspace sp ≡ true
      → length w ≤ maxword
      → read_word cmd (skip (gap ++ (w ++ sp ∷ rest))) ≡ command cmd w rest
  unfolding read_word
  read_lem cmd gap _ rest sp newline g (last {c} black) white fits =
      ap (read_word cmd) (skip_gap gap c (sp ∷ rest) g black)
      ∙ (ground (
        arith,
        newline,
        black,
        word_loop_lem cmd 0 (c ∷ []) rest sp (last black) white (omega (arith, fits)),
      ))
  read_lem cmd gap _ rest sp newline g (more {c} {w} black word) white fits =
      ap (read_word cmd) (skip_gap gap c (w ++ sp ∷ rest) g black)
      ∙ (ground (
        arith,
        newline,
        black,
        word_loop_lem cmd 0 (c ∷ w) rest sp (more black word) white (omega (arith, fits)),
      ))

  -- A command that takes a word.
  abbrev pub takes_word : ℕ → Bool
  takes_word cmd = (cmd == b'i') || (cmd == b'l') || (cmd == b'd')

  -- A command 'i', 'l' or 'd' and a word of 1 to 50 characters, each behind any white space and the
  -- word before a white space, are read as that command and that word, and the rest of the input is
  -- left, if `isspace` is true of a line's end and false of the command and the characters of the
  -- word, and what stands in memory behind the command fits `buf`.
  pub nextin_lem :
      (stray : List ℕ → ℕ) (before gap w rest : List ℕ) (cmd sp : ℕ)
      → fits_buf stray (gap ++ (w ++ sp ∷ rest)) ≡ true
      → isspace b'\n' ≡ true
      → takes_word cmd ≡ true
      → isspace cmd ≡ false
      → IsGap before
      → IsGap gap
      → IsWord w
      → isspace sp ≡ true
      → length w ≤ maxword
      → nextin stray (before ++ cmd ∷ (gap ++ (w ++ sp ∷ rest))) ≡ command cmd w rest
  unfolding nextin after_command
  nextin_lem stray before gap w rest cmd sp room newline is_cmd black b g word white fits =
      ap (after_command stray) (skip_gap before cmd (gap ++ (w ++ sp ∷ rest)) b black)
      ∙ (ground (arith, room, is_cmd, read_lem cmd gap w rest sp newline g word white fits))

  longer_inv :
      (ch : ℕ) (n : Next) {c : ℕ} {w rest : List ℕ}
      → longer ch n ≡ command c w rest
      → (v : List ℕ) × (w ≡ ch ∷ v) × (n ≡ command c v rest)
  longer_inv ch ended e = cc
  longer_inv ch too_long e = cc
  longer_inv ch overruns e = cc
  longer_inv ch (command d v r) e = (v, cc, cc)

  goes_on :
      (cmd i ch : ℕ) (input : List ℕ)
      → isspace ch ≡ false
      → i + 1 ≤ maxword
      → longer ch (word_loop cmd (i + 1) input) ≡ word_loop cmd i (ch ∷ input)
  unfolding word_loop
  goes_on cmd i ch input black few = ground (arith, black)

  word_loop_bounds :
      (cmd i : ℕ) (input : List ℕ) (c : ℕ) (w rest : List ℕ)
      → word_loop cmd i input ≡ command c w rest
      → i ≤ maxword
      → i + length w ≤ maxword
  unfolding word_loop
  word_loop_bounds cmd i [] c w rest e low = cc
  word_loop_bounds cmd i (ch ∷ input) c w rest e low = elim (Bool-cases (isspace ch)) [
    | inl white ↦ ground (arith, white)
    | inr black ↦ elim (dec_lt maxword (i + 1)) [
      | yes many ↦ ground (arith, black)
      | no few ↦
          let (v, at_w, at_rest) =
            longer_inv ch (word_loop cmd (i + 1) input)
              (goes_on cmd i ch input black (omega arith) ∙ e) in
          ground (arith, word_loop_bounds cmd (i + 1) input c v rest at_rest (omega arith))
    ]
  ]

  -- At the end of the input a word does not end: it is reported as too long, whatever its length.
  word_loop_eof : (cmd i : ℕ) (w : List ℕ) → IsWord w → word_loop cmd i w ≡ too_long
  unfolding word_loop
  word_loop_eof cmd i _ (last {c} black) = ground (arith, black)
  word_loop_eof cmd i _ (more {c} {w} black word) =
      ground (arith, black, word_loop_eof cmd (i + 1) w word)

  read_eof :
      (cmd : ℕ) (gap w : List ℕ)
      → isspace b'\n' ≡ true
      → IsGap gap
      → IsWord w
      → read_word cmd (skip (gap ++ w)) ≡ too_long
  unfolding read_word
  read_eof cmd gap _ newline g (last {c} black) =
      ap (read_word cmd) (skip_gap gap c [] g black)
      ∙ ground (arith, newline, black, word_loop_eof cmd 0 (c ∷ []) (last black))
  read_eof cmd gap _ newline g (more {c} {w} black word) =
      ap (read_word cmd) (skip_gap gap c w g black)
      ∙ ground (arith, newline, black, word_loop_eof cmd 0 (c ∷ w) (more black word))

  read_bounds :
      (cmd : ℕ) (input : List ℕ) (c : ℕ) (w rest : List ℕ)
      → read_word cmd input ≡ command c w rest
      → length w ≤ maxword
  unfolding read_word
  read_bounds cmd [] c w rest e = cc
  read_bounds cmd (ch ∷ input) c w rest e = elim (ℕ_discrete ch b'\n') [
    | yes end ↦ ground arith
    | no other ↦
        omega (arith, word_loop_bounds cmd 0 (ch ∷ input) c w rest (ground arith) (omega arith))
  ]

  after_bounds :
      (stray : List ℕ → ℕ) (input : List ℕ) (cmd : ℕ) (w rest : List ℕ)
      → after_command stray input ≡ command cmd w rest
      → length w ≤ maxword
  unfolding after_command
  after_bounds stray [] cmd w rest e = cc
  after_bounds stray (ch ∷ input) cmd w rest e = elim (Bool-cases (takes_word ch)) [
    | inl takes ↦ read_bounds ch (skip input) cmd w rest (ground arith)
    | inr takes_none ↦ ground arith
  ]

  -- No word that is read is longer than 50 characters: with its end it fits the 51 of `word`.
  pub nextin_bounds :
      (stray : List ℕ → ℕ) (input : List ℕ) (cmd : ℕ) (w rest : List ℕ)
      → nextin stray input ≡ command cmd w rest
      → length w ≤ maxword
  unfolding nextin
  nextin_bounds stray input cmd w rest e = after_bounds stray (skip input) cmd w rest e

  -- A command with a word that the end of the input follows at once ends the client with the message
  -- of a word that is too long, however short the word is.
  pub nextin_eof :
      (stray : List ℕ → ℕ) (before gap w : List ℕ) (cmd : ℕ)
      → fits_buf stray (gap ++ w) ≡ true
      → isspace b'\n' ≡ true
      → takes_word cmd ≡ true
      → isspace cmd ≡ false
      → IsGap before
      → IsGap gap
      → IsWord w
      → nextin stray (before ++ cmd ∷ (gap ++ w)) ≡ too_long
  unfolding nextin after_command
  nextin_eof stray before gap w cmd room newline is_cmd black b g word =
      ap (after_command stray) (skip_gap before cmd (gap ++ w) b black)
      ∙ ground (arith, room, is_cmd, read_eof cmd gap w newline g word)
