-- ===== src/ProducerConsumer/Straight.antt =====
-- A buffer that producers and consumers walk through once, from its start. No source code by itself:
-- the programs whose pointers never go back are compared with it.
use os_5sem.Prelude.{
  ℕ, suc, ◌+◌, ◌≤◌, ◌<◌, ◌≡◌, refl, ◌∙◌, List, none, some, ◌==◌, ltb, ℕ_discrete, dec_lt,
  if◌then◌else◌, length, get_elem?, set, length-set, get_elem?-set_self, get_elem?-set_ne,
  replicate, length-replicate, arith,
}
use os_5sem.ProducerConsumer.Threads.{Section, letter}
use os_5sem.ProducerConsumer.Counts.{IsWalk, outcome}

-- The buffer, the offsets of the two pointers, and the letter to put.
pub record Store : Type 0 where
  pub buffer : List ℕ
  pub prod_ptr : ℕ
  pub cons_ptr : ℕ
  pub alpha : ℕ

-- The static buffer is zero before the first request.
abbrev pub first : ℕ → Store
first size = record { buffer = replicate size 0; prod_ptr = 0; cons_ptr = 0; alpha = b'a' }

abbrev put_letter : Store → Store
put_letter s = record {
  buffer = set s.buffer s.prod_ptr s.alpha;
  prod_ptr = s.prod_ptr + 1;
  cons_ptr = s.cons_ptr;
  alpha = if s.alpha == b'z' then b'a' else s.alpha + 1;
}

-- `none` for an access past the buffer.
unfoldable pub put : Section Store
put s = if ltb s.prod_ptr (length s.buffer) then some (put_letter s, s.alpha) else none

unfoldable pub take : Section Store
take s = elim (get_elem? s.buffer s.cons_ptr) [
  | none ↦ none
  | some c ↦ some (record s { cons_ptr = s.cons_ptr + 1 }, c)
]

-- The first `a` places hold the first letters of the alphabet, and `b` of them were taken.
pub record Holds (size : ℕ) (s : Store) (a b : ℕ) : Type 0 where
  pub size_of : length s.buffer ≡ size
  pub at_prod : s.prod_ptr ≡ a
  pub at_cons : s.cons_ptr ≡ b
  pub next_letter : s.alpha ≡ letter a
  pub items : (k : ℕ) → k < a → get_elem? s.buffer k ≡ some (letter k)

pub put_lem :
    (size : ℕ) (s : Store) (a b : ℕ)
    → Holds size s a b
    → a < size
    → (t : Store) × (put s ≡ some (t, letter a)) × Holds size t (suc a) b
unfolding put
put_lem size s a b h room = (
  put_letter s,
  ground (arith, h.size_of, h.at_prod, h.next_letter),
  record {
    size_of = length-set s.buffer s.prod_ptr s.alpha ∙ h.size_of;
    at_prod = omega (arith, h.at_prod);
    at_cons = h.at_cons;
    next_letter = ground (arith, h.next_letter);
    items = λ k lt. elim (ℕ_discrete k a) [
      | yes new ↦ ground (
        arith,
        h.size_of,
        h.at_prod,
        h.next_letter,
        get_elem?-set_self s.buffer s.prod_ptr s.alpha,
      )
      | no old ↦
          get_elem?-set_ne s.buffer s.alpha (omega (arith, h.at_prod)) ∙ h.items k (omega arith)
    ];
  },
)

pub take_lem :
    (size : ℕ) (s : Store) (a b : ℕ)
    → Holds size s a b
    → b < a
    → (t : Store) × (take s ≡ some (t, letter b)) × Holds size t a (suc b)
unfolding take
take_lem size s a b h item = (
  record s { cons_ptr = s.cons_ptr + 1 },
  ground (arith, h.at_cons, h.items b item),
  record {
    size_of = h.size_of;
    at_prod = h.at_prod;
    at_cons = omega (arith, h.at_cons);
    next_letter = h.next_letter;
    items = h.items;
  },
)

pub overruns : (size : ℕ) (s : Store) (a b : ℕ) → Holds size s a b → size ≤ a → put s ≡ none
unfolding put
overruns size s a b h many = ground (arith, h.size_of, h.at_prod)

pub first-Holds : (size : ℕ) → Holds size (first size) 0 0
first-Holds size = record {
  size_of = length-replicate size 0;
  at_prod = refl;
  at_cons = refl;
  next_letter = refl;
  items = λ k lt. absurd (omega arith);
}

-- Until a producer leaves the buffer, the letters pass through it in their order.
pub straight-IsWalk : (size : ℕ) → IsWalk size put take (first size) (Holds size)
straight-IsWalk size = record {
  starts = first-Holds size;
  puts_next = λ s t a b c h room e. elim (dec_lt a size) [
    | yes inside ↦
        outcome (λ u. Holds size u (suc a) b) (put s) (letter a) t c (put_lem size s a b h inside) e
    | no many ↦ cc (e, overruns size s a b h (omega (arith, many)))
  ];
  takes_next = λ s t a b c h item e.
      outcome (λ u. Holds size u a (suc b)) (take s) (letter b) t c (take_lem size s a b h item) e;
}
