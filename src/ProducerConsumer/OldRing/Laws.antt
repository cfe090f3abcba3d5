-- ===== src/ProducerConsumer/OldRing/Laws.antt =====
-- os_lab_rpc/pc_old/pc_server.c: its sections keep a ring, and what follows for the server.
use os_5sem.Prelude.{
  ℕ, suc, ◌+◌, ◌%◌, ◌≤◌, ◌<◌, ◌≡◌, ◌≢◌, ◌⊎◌, refl, ◌∙◌, List, none, some, ◌==◌, ℕ_discrete,
  if◌then◌else◌, length, get_elem?, set, length-set, get_elem?-set_self, get_elem?-set_ne, arith,
}
use os_5sem.ProducerConsumer.Threads.{p_in, c_in, System, Reach, letter}
use os_5sem.ProducerConsumer.Counts.{IsRing, IsRing-IsWalk, alphabet}
use os_5sem.ProducerConsumer.Safety
use os_5sem.ProducerConsumer.Statements.{Running, Reaches}
use os_5sem.ProducerConsumer.Statements.Safety as ByLines
use os_5sem.ProducerConsumer.OldRing.Lines.{lines, by_lines, lines-whole, by_lines-eq}
use os_5sem.ProducerConsumer.OldRing.{
  size_buf, arrays, Store, first, advance, put, take, code, code-eq, old-Implements,
}

-- The ring holds the items from `b` to `a`, each at its number modulo 1000.
pub record Holds (s : Store) (a b : ℕ) : Type 0 where
  pub size : length s.buffer ≡ size_buf
  pub at_prod : s.prod_ptr ≡ a % 1000
  pub at_cons : s.cons_ptr ≡ b % 1000
  pub next_letter : s.alpha ≡ letter a
  pub fits : (b ≤ a) × (a ≤ b + 1000)
  pub items : (k : ℕ) → b ≤ k → k < a → get_elem? s.buffer (k % 1000) ≡ some (letter k)

pub put-Holds :
    (s : Store) (a b : ℕ)
    → Holds s a b
    → a < 1000 + b
    → (t : Store) × (put s ≡ some (t, letter a)) × Holds t (suc a) b
unfolding put
put-Holds s a b h room = (
  record {
    buffer = set s.buffer s.prod_ptr s.alpha;
    prod_ptr = advance s.prod_ptr;
    cons_ptr = s.cons_ptr;
    alpha = if s.alpha == b'z' then b'a' else s.alpha + 1;
  },
  ground (arith, h.size, h.at_prod, h.next_letter),
  record {
    size = length-set s.buffer s.prod_ptr s.alpha ∙ h.size;
    at_prod = ground (arith, h.at_prod);
    at_cons = h.at_cons;
    next_letter = ground (arith, h.next_letter);
    fits = omega (arith, h.fits);
    items = λ k lo hi. elim (ℕ_discrete k a) [
      | yes new ↦
          ground (
            arith,
            h.size,
            h.at_prod,
            h.next_letter,
            get_elem?-set_self s.buffer s.prod_ptr s.alpha,
          )
      | no old ↦
          get_elem?-set_ne s.buffer s.alpha (omega (arith, h.at_prod, h.fits))
          ∙ h.items k lo (omega arith)
    ];
  },
)

pub take-Holds :
    (s : Store) (a b : ℕ)
    → Holds s a b
    → b < a
    → (t : Store) × (take s ≡ some (t, letter b)) × Holds t a (suc b)
unfolding take
take-Holds s a b h some_item = (
  record s { cons_ptr = advance s.cons_ptr },
  ground (arith, h.size, h.at_cons, oldest),
  record {
    size = h.size;
    at_prod = h.at_prod;
    at_cons = ground (arith, h.at_cons);
    next_letter = h.next_letter;
    fits = omega (arith, h.fits);
    items = λ k lo hi. h.items k (omega arith) hi;
  },
)
  where
    oldest : get_elem? s.buffer s.cons_ptr ≡ some (letter b)
    oldest = rw h.at_cons (h.items b (omega arith) some_item)

-- The sections of the program are those of a ring: a producer writes the next letter of the alphabet
-- behind the newest item, and a consumer takes the oldest one.
pub old-IsRing :
    (junk : List ℕ) → length junk ≡ size_buf → IsRing size_buf put take (first junk) Holds
old-IsRing junk full_size = record {
  starts = record {
    size = full_size;
    at_prod = refl;
    at_cons = refl;
    next_letter = refl;
    fits = omega arith;
    items = λ k lo hi. absurd (omega arith);
  };
  puts_next = put-Holds;
  takes_next = take-Holds;
}

-- However the statements of the threads of the server are interleaved, the replies to its producers are the letters
-- of the alphabet over and over, the replies to its consumers are the first of those in the same
-- order, each given once, and at most a thousand letters are put and not yet taken.
pub old_fifo :
    (junk : List ℕ)
    → length junk ≡ size_buf
    → {n : ℕ} {s : Running Store} → Reaches arrays (first junk) by_lines n s
    → (puts : ℕ) × (takes : ℕ) × (s.made ≡ alphabet puts)
      × (s.taken ≡ alphabet takes)
      × (takes ≤ puts)
      × (puts ≤ size_buf + takes)
old_fifo junk full_size =
    ByLines.fifo lines by_lines old-Implements (IsRing-IsWalk (old-IsRing junk full_size))
      lines-whole by_lines-eq

-- In every reachable state a thread of the server that stands in its section accesses the buffer
-- within its bounds.
pub old_in_bounds :
    (junk : List ℕ)
    → length junk ≡ size_buf
    → {n : ℕ} {s : System Store} → Reach arrays (first junk) code n s
    → (i : ℕ) → i < n
    → (s.pc i ≡ p_in) ⊎ (s.pc i ≡ c_in)
    → code s.mem (s.pc i) ≢ none
old_in_bounds junk full_size = Safety.in_bounds old-Implements (old-IsRing junk full_size) code-eq
