-- ===== src/ProducerConsumer/Counts.antt =====
-- The counters of the three semaphores against the locations of the threads, and what a program's
-- sections have to do for its buffer to be a ring.
use os_5sem.Prelude.{
  ℕ, zero, suc, ◌+◌, ◌<◌, ◌≡◌, refl, Bool, List, [], ◌∷◌, ◌++◌, Option, some, if◌then◌else◌,
}
use mathlib.Core.Path.{subst}
use os_5sem.Prelude.Family.{update, tally, tally-update}
use os_5sem.ProducerConsumer.Slots.{Slots}
use os_5sem.ProducerConsumer.Threads.{Pc, idle, p_in, p_out, c_in, c_out, Section, letter}

-- The first letters, in the order of their production.
unfoldable pub alphabet : ℕ → List ℕ
alphabet zero = []
alphabet (suc k) = alphabet k ++ letter k ∷ []

-- The shared variables hold the items from `takes` to `puts`: what a program's sections have to do.
pub record IsRing {S : Type 0} (size : ℕ) (put take : Section S) (first : S)
    (Holds : S → ℕ → ℕ → Type 0) : Type 0 where
  pub starts : Holds first 0 0
  pub puts_next :
      (s : S) (a b : ℕ)
      → Holds s a b
      → a < size + b
      → (t : S) × (put s ≡ some (t, letter a)) × Holds t (suc a) b
  pub takes_next :
      (s : S) (a b : ℕ)
      → Holds s a b
      → b < a
      → (t : S) × (take s ≡ some (t, letter b)) × Holds t a (suc b)

-- The same, where a section may also access memory outside the buffer: what it does as long as it
-- does not.
pub record IsWalk {S : Type 0} (size : ℕ) (put take : Section S) (first : S)
    (Holds : S → ℕ → ℕ → Type 0) : Type 0 where
  pub starts : Holds first 0 0
  pub puts_next :
      (s t : S) (a b c : ℕ)
      → Holds s a b
      → a < size + b
      → put s ≡ some (t, c)
      → (c ≡ letter a) × Holds t (suc a) b
  pub takes_next :
      (s t : S) (a b c : ℕ)
      → Holds s a b
      → b < a
      → take s ≡ some (t, c)
      → (c ≡ letter b) × Holds t a (suc b)

-- What a section that runs through with one outcome does for any other.
pub outcome :
    {S : Type 0} (Next : S → Type 0) (x : Option (S × ℕ)) (k : ℕ) (t : S) (c : ℕ)
    → (u : S) × (x ≡ some (u, k)) × Next u
    → x ≡ some (t, c)
    → (c ≡ k) × Next t
outcome Next x k t c (u, ran, next) e =
    let same : u ≡ t = cc (ran, e) in (cc (ran, e), subst Next same next)

pub IsRing-IsWalk :
    {S : Type 0} {size : ℕ} {put take : Section S} {first : S} {Holds : S → ℕ → ℕ → Type 0}
    → IsRing size put take first Holds
    → IsWalk size put take first Holds
IsRing-IsWalk {put} {take} {Holds} ring = record {
  starts = ring.starts;
  puts_next = λ s t a b c h room e.
      outcome (λ u. Holds u (suc a) b) (put s) (letter a) t c (ring.puts_next s a b h room) e;
  takes_next = λ s t a b c h item e.
      outcome (λ u. Holds u a (suc b)) (take s) (letter b) t c (ring.takes_next s a b h item) e;
}

-- Who holds the lock; who has taken a place and not filled it; and so on.
abbrev pub inside : Pc → ℕ
inside p_in = 1
inside (p_out _) = 1
inside c_in = 1
inside (c_out _) = 1
inside _ = 0

abbrev pub at_p_in : Pc → ℕ
at_p_in p_in = 1
at_p_in _ = 0

abbrev pub at_p_out : Pc → ℕ
at_p_out (p_out _) = 1
at_p_out _ = 0

abbrev pub at_c_in : Pc → ℕ
at_c_in c_in = 1
at_c_in _ = 0

abbrev pub at_c_out : Pc → ℕ
at_c_out (c_out _) = 1
at_c_out _ = 0

abbrev pub bit : Bool → ℕ
bit b = if b then 1 else 0

pub inside-sum : (c : Pc) → at_p_in c + at_p_out c + at_c_in c + at_c_out c ≡ inside c
inside-sum idle = refl
inside-sum _ = refl

-- The counters of the semaphores against the locations and the items.
pub record Counts (size : ℕ) (l : Slots) (puts takes n : ℕ) (pc : ℕ → Pc) : Type 0 where
  pub locked : bit l.held ≡ tally inside pc n
  pub frees : l.free + tally at_p_in pc n + puts + tally at_c_out pc n ≡ size + takes
  pub fulls : l.full + tally at_p_out pc n + takes + tally at_c_in pc n ≡ puts

-- A thread moves from `c` to `d`.
pub record Moved (n : ℕ) (pc : ℕ → Pc) (i : ℕ) (c d : Pc) : Type 0 where
  pub inside_sum : tally inside (update pc i d) n + inside c ≡ tally inside pc n + inside d
  pub p_in_sum : tally at_p_in (update pc i d) n + at_p_in c ≡ tally at_p_in pc n + at_p_in d
  pub p_out_sum : tally at_p_out (update pc i d) n + at_p_out c ≡ tally at_p_out pc n + at_p_out d
  pub c_in_sum : tally at_c_in (update pc i d) n + at_c_in c ≡ tally at_c_in pc n + at_c_in d
  pub c_out_sum : tally at_c_out (update pc i d) n + at_c_out c ≡ tally at_c_out pc n + at_c_out d

pub moves : {n : ℕ} (pc : ℕ → Pc) (i : ℕ) {c : Pc} (d : Pc) → i < n → pc i ≡ c → Moved n pc i c d
moves {n} pc i d lt e = record {
  inside_sum = rw (← e) (tally-update inside pc i d n lt);
  p_in_sum = rw (← e) (tally-update at_p_in pc i d n lt);
  p_out_sum = rw (← e) (tally-update at_p_out pc i d n lt);
  c_in_sum = rw (← e) (tally-update at_c_in pc i d n lt);
  c_out_sum = rw (← e) (tally-update at_c_out pc i d n lt);
}
