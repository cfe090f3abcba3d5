-- ===== src/ProducerConsumer/RpcRing/Laws.antt =====
-- os_lab_rpc/pc/pc_server.c: its sections keep a ring, and what follows for the server.
use os_5sem.Prelude.{
  ℕ, suc, ◌+◌, ◌%◌, ◌≤◌, ◌<◌, ◌≡◌, ◌≢◌, ◌⊎◌, refl, ◌∙◌, none, some, ◌==◌, ℕ_discrete, if◌then◌else◌,
  length, get_elem?, set, length-set, get_elem?-set_self, get_elem?-set_ne, arith,
}
use os_5sem.Posix.Semop.{Sems, semop, done}
use os_5sem.ProducerConsumer.Threads.{p_in, c_in, System, Reach, letter}
use os_5sem.ProducerConsumer.Counts.{IsRing, IsRing-IsWalk, alphabet, inside}
use os_5sem.ProducerConsumer.Safety
use os_5sem.ProducerConsumer.Statements.{Running, Reaches}
use os_5sem.ProducerConsumer.Statements.Safety as ByLines
use os_5sem.ProducerConsumer.Statements.Relation.{seen}
use os_5sem.ProducerConsumer.RpcRing.Lines.{lines, by_lines, lines-whole, by_lines-eq}
use os_5sem.ProducerConsumer.RpcRing.{
  size_buf, start_prod, start_cons, arrays, Store, first, advance, put, take, code, code-eq,
  rpc-Implements,
}

-- The ring holds the items from `b` to `a`, each at its number modulo 10.
pub record Holds (s : Store) (a b : ℕ) : Type 0 where
  pub size : length s.buffer ≡ size_buf
  pub at_prod : s.prod_ptr ≡ a % 10
  pub at_cons : s.cons_ptr ≡ b % 10
  pub next_letter : s.alpha ≡ letter a
  pub fits : (b ≤ a) × (a ≤ b + 10)
  pub items : (k : ℕ) → b ≤ k → k < a → get_elem? s.buffer (k % 10) ≡ some (letter k)

put-Holds :
    (s : Store) (a b : ℕ)
    → Holds s a b
    → a < 10 + b
    → (t : Store) × (put s ≡ some (t, letter a)) × Holds t (suc a) b
unfolding put
put-Holds s a b h room = (
  record {
    buffer = set s.buffer s.prod_ptr s.alpha;
    prod_ptr = advance s.prod_ptr;
    cons_ptr = s.cons_ptr;
    alpha = if s.alpha == b'z' then b'a' else s.alpha + 1;
  },
  ground (arith, h.size, h.at_prod, h.next_letter),
  record {
    size = length-set s.buffer s.prod_ptr s.alpha ∙ h.size;
    at_prod = ground (arith, h.at_prod);
    at_cons = h.at_cons;
    next_letter = ground (arith, h.next_letter);
    fits = omega (arith, h.fits);
    items = λ k lo hi. elim (ℕ_discrete k a) [
      | yes new ↦
          ground (
            arith,
            h.size,
            h.at_prod,
            h.next_letter,
            get_elem?-set_self s.buffer s.prod_ptr s.alpha,
          )
      | no old ↦
          get_elem?-set_ne s.buffer s.alpha (omega (arith, h.at_prod, h.fits))
          ∙ h.items k lo (omega arith)
    ];
  },
)

take-Holds :
    (s : Store) (a b : ℕ)
    → Holds s a b
    → b < a
    → (t : Store) × (take s ≡ some (t, letter b)) × Holds t a (suc b)
unfolding take
take-Holds s a b h some_item = (
  record s { buffer = set s.buffer s.cons_ptr b'-'; cons_ptr = advance s.cons_ptr },
  ground (arith, h.size, h.at_cons, oldest),
  record {
    size = length-set s.buffer s.cons_ptr b'-' ∙ h.size;
    at_prod = h.at_prod;
    at_cons = ground (arith, h.at_cons);
    next_letter = h.next_letter;
    fits = omega (arith, h.fits);
    items = λ k lo hi.
        get_elem?-set_ne s.buffer b'-' (omega (arith, h.at_cons, h.fits))
        ∙ h.items k (omega arith) hi;
  },
)
  where
    oldest : get_elem? s.buffer s.cons_ptr ≡ some (letter b)
    oldest = rw h.at_cons (h.items b (omega arith) some_item)

-- The sections of the program are those of a ring: a producer writes the next letter of the alphabet
-- behind the newest item, and a consumer takes the oldest one.
pub rpc-IsRing : IsRing size_buf put take first Holds
rpc-IsRing = record {
  starts = record {
    size = refl;
    at_prod = refl;
    at_cons = refl;
    next_letter = refl;
    fits = omega arith;
    items = λ k lo hi. absurd (omega arith);
  };
  puts_next = put-Holds;
  takes_next = take-Holds;
}

-- However the statements of the threads of the server are interleaved, the replies to its producers are the letters
-- of the alphabet over and over, the replies to its consumers are the first of those in the same
-- order, each given once, and at most ten letters are put and not yet taken.
pub rpc_fifo :
    {n : ℕ} {s : Running Store}
    → Reaches arrays first by_lines n s
    → (puts : ℕ) × (takes : ℕ) × (s.made ≡ alphabet puts)
      × (s.taken ≡ alphabet takes)
      × (takes ≤ puts)
      × (puts ≤ size_buf + takes)
rpc_fifo =
    ByLines.fifo lines by_lines rpc-Implements (IsRing-IsWalk rpc-IsRing) lines-whole by_lines-eq

-- In every reachable state at most one thread of the server stands between its calls of semop.
pub rpc_alone :
    {n : ℕ} {s : System Store}
    → Reach arrays first code n s
    → (i j : ℕ) → i < n
    → j < n
    → inside (s.pc i) ≡ 1
    → inside (s.pc j) ≡ 1
    → i ≡ j
rpc_alone = Safety.alone rpc-Implements (IsRing-IsWalk rpc-IsRing) code-eq

-- In every reachable state a thread of the server that stands in its section accesses the buffer
-- within its bounds.
pub rpc_in_bounds :
    {n : ℕ} {s : System Store}
    → Reach arrays first code n s
    → (i : ℕ) → i < n
    → (s.pc i ≡ p_in) ⊎ (s.pc i ≡ c_in)
    → code s.mem (s.pc i) ≢ none
rpc_in_bounds = Safety.in_bounds rpc-Implements rpc-IsRing code-eq

-- In every reachable state in which no thread stands between its calls of semop, the first call of a
-- producer or that of a consumer goes through.
pub rpc_never_both_wait :
    {n : ℕ} {s : Running Store}
    → Reaches arrays first by_lines n s
    → ((j : ℕ) → j < n → inside (seen (s.place j)) ≡ 0)
    → ((t : Sems) × (semop start_prod s.mem.sems ≡ done t))
      ⊎ ((t : Sems) × (semop start_cons s.mem.sems ≡ done t))
rpc_never_both_wait r quiet =
    ByLines.never_both_wait lines by_lines rpc-Implements (IsRing-IsWalk rpc-IsRing) lines-whole
      by_lines-eq r quiet (omega arith)
