-- ===== src/Pipes/Examples.antt =====
-- Instances for the programs of os_lab_2 that use a pipe.
use os_5sem.Prelude.{◌≡◌, refl, List, [], ◌∷◌, ◌++◌, ℕ, some, replicate}
use os_5sem.Pipes.{take, drop, read, printed}

abbrev xx : List ℕ
xx = b'x' ∷ b'x' ∷ []

abbrev yy : List ℕ
yy = b'y' ∷ b'-' ∷ b'y' ∷ b'-' ∷ b'y' ∷ b'-' ∷ b'y' ∷ b'-' ∷ b'y' ∷ []

-- A buffer with what happened to stand on the stack.
abbrev junk : List ℕ
junk = replicate 49 b'?' ++ 0 ∷ []

-- The string of the first round goes on behind the text.
first_string :
    (printed (read 2 (record { pipe = xx; buf = junk })).1.buf) ≡ some (xx ++ replicate 47 b'?')
unfolding printed read take drop
first_string = refl
