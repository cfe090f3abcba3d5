-- ===== src/Pipes.antt =====
-- os_lab_2/pipe.c, prog4.c, prog5.c and signal.c: two children write their texts into a pipe, and the
-- parent, once both have ended, reads it by the lengths of the texts. A write of so few bytes is
-- atomic, and nothing waits: a read of an empty pipe whose writers have closed it gets 0 bytes.
mod Examples
use mathlib.Core.List.{append-nil}
use os_5sem.Prelude.{
  ℕ, zero, suc, ◌+◌, ◌-◌, ◌≤◌, ◌≡◌, refl, sym, ◌∙◌, ap, Bool, true, false, List, [], ◌∷◌, ◌++◌,
  Option, none, some, ◌==◌, if◌then◌else◌, not, ◌&&◌, length, length-append, set, arith,
}

unfoldable pub take : ℕ → List ℕ → List ℕ
take zero xs = []
take (suc n) [] = []
take (suc n) (x ∷ xs) = x ∷ take n xs

unfoldable pub drop : ℕ → List ℕ → List ℕ
drop zero xs = xs
drop (suc n) [] = []
drop (suc n) (x ∷ xs) = drop n xs

-- The pipe, and the bytes of `buf`.
pub record Parent : Type 0 where
  pub pipe : List ℕ
  pub buf : List ℕ

-- read(pipefd[0], buf, n), with the bytes that it gets: they replace the first ones of the buffer, and
-- no zero is put behind them.
unfoldable pub read : ℕ → Parent → List ℕ × Parent
read n p =
    let got = take n p.pipe in
    (got, record { pipe = drop n p.pipe; buf = got ++ drop (length got) p.buf })

-- What printf("%s") prints: the bytes up to the first zero; `none` if it leaves the buffer.
unfoldable pub printed : List ℕ → Option (List ℕ)
printed [] = none
printed (b ∷ bs) =
    let rest = printed bs in
    if b == 0 then some [] else elim rest [ none ↦ none | some s ↦ some (b ∷ s) ]

-- What one round shows: the bytes read, and the string printed.
pub record Shown : Type 0 where
  pub got : List ℕ
  pub text : Option (List ℕ)

abbrev pub shown : List ℕ × Parent → Shown
shown u = record { got = u.0; text = printed u.1.buf }

-- buf[0] = 0
abbrev pub cleared : Parent → Parent
cleared p = record p { buf = set p.buf 0 0 }

-- The two rounds of the loop and the last read.
abbrev pub receive : List ℕ → List ℕ → Parent → Shown × Shown × Shown
receive t0 t1 p =
    let first = read (length t0) p in
    let second = read (length t1) (cleared first.1) in
    let third = read 1 (cleared second.1) in (shown first, shown second, shown third)

-- The pipe when both children have ended; `ahead` if the first one wrote before the second one.
abbrev pub written : Bool → List ℕ → List ℕ → List ℕ
written ahead w0 w1 = if ahead then w0 ++ w1 else w1 ++ w0

-- pipe, the two forks and the two waits: main exits with status 1 if one of them fails.
abbrev pub calls : (ℕ → Bool) → Bool
calls ok = ok 0 && ok 1 && ok 2 && ok 3 && ok 4

abbrev pub pipe_main : (ℕ → Bool) → Bool → List ℕ → List ℕ → List ℕ → Option (Shown × Shown × Shown)
pipe_main ok ahead t0 t1 junk =
    if not (calls ok)
    then none
    else some (receive t0 t1 (record { pipe = written ahead t0 t1; buf = junk }))

abbrev pub prog4_main :
    (ℕ → Bool) → Bool → List ℕ → List ℕ → List ℕ → Option (Shown × Shown × Shown)
prog4_main ok ahead t0 t1 junk =
    if not (calls ok)
    then none
    else some (receive t0 t1 (record { pipe = written ahead t0 t1; buf = junk }))

-- A child of prog5.c and signal.c writes if its `flag` is set, as the handler does on Ctrl-C.
abbrev pub child : Bool → List ℕ → List ℕ
child flag text = if flag then text else []

-- signal(SIGINT) may fail too.
abbrev pub prog5_main :
    (ℕ → Bool) → Bool → Bool → Bool → List ℕ → List ℕ → List ℕ → Option (Shown × Shown × Shown)
prog5_main ok ahead flag0 flag1 t0 t1 junk =
    if not (calls ok && ok 5)
    then none
    else some (
        receive t0 t1
          (record { pipe = written ahead (child flag0 t0) (child flag1 t1); buf = junk }))

abbrev pub signal_main :
    (ℕ → Bool) → Bool → Bool → Bool → List ℕ → List ℕ → List ℕ → Option (Shown × Shown × Shown)
signal_main ok ahead flag0 flag1 t0 t1 junk =
    if not (calls ok && ok 5)
    then none
    else some (
        receive t0 t1
          (record { pipe = written ahead (child flag0 t0) (child flag1 t1); buf = junk }))

take-all : (xs ys : List ℕ) → take (length xs) (xs ++ ys) ≡ xs
unfolding take
take-all [] ys = refl
take-all (x ∷ xs) ys = ap (λ l. x ∷ l) (take-all xs ys)

drop-all : (xs ys : List ℕ) → drop (length xs) (xs ++ ys) ≡ ys
unfolding drop
drop-all [] ys = refl
drop-all (x ∷ xs) ys = drop-all xs ys

take-append-drop : (n : ℕ) (xs : List ℕ) → take n xs ++ drop n xs ≡ xs
unfolding take drop
take-append-drop zero xs = refl
take-append-drop (suc n) [] = refl
take-append-drop (suc n) (x ∷ xs) = ap (λ l. x ∷ l) (take-append-drop n xs)

take-short : (n : ℕ) (xs : List ℕ) → length xs ≤ n → take n xs ≡ xs
unfolding take
take-short zero [] h = refl
take-short zero (x ∷ xs) h = absurd (omega arith)
take-short (suc n) [] h = refl
take-short (suc n) (x ∷ xs) h = ap (λ l. x ∷ l) (take-short n xs (omega arith))

length-drop : (n : ℕ) (xs : List ℕ) → length (drop n xs) ≡ length xs - n
unfolding drop
length-drop zero xs = omega arith
length-drop (suc n) [] = omega arith
length-drop (suc n) (x ∷ xs) = omega (arith, length-drop n xs)

take-append : (n : ℕ) (xs ys : List ℕ) → n ≤ length xs → take n (xs ++ ys) ≡ take n xs
unfolding take
take-append zero xs ys h = refl
take-append (suc n) [] ys h = absurd (omega arith)
take-append (suc n) (x ∷ xs) ys h = ap (λ l. x ∷ l) (take-append n xs ys (omega arith))

take-nil : (n : ℕ) → take n [] ≡ []
unfolding take
take-nil zero = refl
take-nil (suc n) = refl

drop-nil : (n : ℕ) → drop n [] ≡ []
unfolding drop
drop-nil zero = refl
drop-nil (suc n) = refl

written-short :
    (ahead flag0 flag1 : Bool) (t0 t1 : List ℕ)
    → length (written ahead (child flag0 t0) (child flag1 t1)) ≤ length t0 + length t1
written-short ahead flag0 flag1 t0 t1 =
    ground
      (arith, length-append t0 t1, length-append t1 t0, length-append t0 [], length-append t1 [])

-- What the three reads get from a pipe.
abbrev gets : List ℕ → List ℕ → List ℕ → List ℕ → Shown × Shown × Shown
gets t0 t1 pipe junk = receive t0 t1 (record { pipe = pipe; buf = junk })

gets-got :
    (t0 t1 pipe junk : List ℕ)
    → ((gets t0 t1 pipe junk).0.got ≡ take (length t0) pipe)
      × ((gets t0 t1 pipe junk).1.got ≡ take (length t1) (drop (length t0) pipe))
      × ((gets t0 t1 pipe junk).2.got ≡ take 1 (drop (length t1) (drop (length t0) pipe)))
unfolding read
gets-got t0 t1 pipe junk = (refl, refl, refl)

-- If pipe, fork and wait succeed and the first child writes first, the parent reads each text in the round of its child, and nothing
-- is left for the last read.
pub pipe_in_order :
    (ok : ℕ → Bool) (t0 t1 junk : List ℕ)
    → calls ok ≡ true
    → (u : Shown × Shown × Shown) × (pipe_main ok true t0 t1 junk ≡ some u)
      × (u.0.got ≡ t0)
      × (u.1.got ≡ t1)
      × (u.2.got ≡ [])
pipe_in_order ok t0 t1 junk fine =
    let (a, b, c) = gets-got t0 t1 (t0 ++ t1) junk in
    let short : take (length t1) t1 ≡ t1 = take-short (length t1) t1 (omega arith) in
    let gone : drop (length t1) t1 ≡ [] = rw (append-nil t1) at (drop-all t1 []) in
    (
      gets t0 t1 (t0 ++ t1) junk,
      ground (arith, fine),
      a ∙ take-all t0 t1,
      b ∙ rw (drop-all t0 t1) short,
      c ∙ rw (drop-all t0 t1, gone) (take-nil 1),
    )

-- If the second child writes first, and its text is no shorter, the parent takes the beginning of its
-- text for the message of the first child.
pub pipe_swapped :
    (ok : ℕ → Bool) (t0 t1 junk : List ℕ)
    → calls ok ≡ true
    → length t0 ≤ length t1
    → (u : Shown × Shown × Shown) × (pipe_main ok false t0 t1 junk ≡ some u)
      × (u.0.got ≡ take (length t0) t1)
pipe_swapped ok t0 t1 junk fine short =
    let (a, b, c) = gets-got t0 t1 (t1 ++ t0) junk in
    (gets t0 t1 (t1 ++ t0) junk, ground (arith, fine), a ∙ take-append (length t0) t1 t0 short)

-- Whichever children have seen the signal, and whichever wrote first, the reads of prog5.c get all
-- that was written, once and in the order of the pipe.
pub prog5_reads_all :
    (ok : ℕ → Bool) (ahead flag0 flag1 : Bool) (t0 t1 junk : List ℕ)
    → calls ok ≡ true
    → ok 5 ≡ true
    → (u : Shown × Shown × Shown) × (prog5_main ok ahead flag0 flag1 t0 t1 junk ≡ some u)
      × (u.0.got ++ (u.1.got ++ u.2.got) ≡ written ahead (child flag0 t0) (child flag1 t1))
prog5_reads_all ok ahead flag0 flag1 t0 t1 junk fine fine5 =
    let pipe = written ahead (child flag0 t0) (child flag1 t1) in
    let (a, b, c) = gets-got t0 t1 pipe junk in
    let left = drop (length t0) pipe in
    let small : length (drop (length t1) left) ≤ 1 = omega (
      arith,
      length-drop (length t0) pipe,
      length-drop (length t1) left,
      written-short ahead flag0 flag1 t0 t1,
    ) in
    (
      gets t0 t1 pipe junk,
      ground (arith, fine, fine5),
      rw (a, b, c, take-short 1 (drop (length t1) left) small)
          (ap (λ l. take (length t0) pipe ++ l) (take-append-drop (length t1) left)
            ∙ take-append-drop (length t0) pipe),
    )
