-- ===== src/ProducerConsumer/RpcRing/Lines.antt =====
-- os_lab_rpc/pc/pc_server.c: its two procedures statement by statement. The loops that print the
-- buffer are left out.
use os_5sem.Prelude.{
  ◌+◌, ◌≡◌, refl, List, [], ◌∷◌, none, some, ◌==◌, if◌then◌else◌, get_elem?, arith, Option-cases,
  inl, inr,
}
use os_5sem.ProducerConsumer.Threads.{Mem, call}
use os_5sem.ProducerConsumer.Statements.{
  Statement, Side, putting, taking, Place, resting, waits, within, leaves, statement, run_all,
  Moves,
}
use os_5sem.ProducerConsumer.Statements.Relation.{in_statements, section_of}
use os_5sem.ProducerConsumer.RpcRing.{
  size_buf, start_prod, stop_prod, start_cons, stop_cons, arrays, Store, poke, put, take,
}

-- *prod_ptr = alpha;
abbrev put_alpha : Statement Store
put_alpha s result = elim (poke s.buffer s.prod_ptr s.alpha) [
  | none ↦ none
  | some buffer ↦ some (record s { buffer = buffer }, result)
]

-- *result = alpha;
abbrev reply_alpha : Statement Store
reply_alpha s result = some (s, s.alpha)

-- prod_ptr++;
abbrev next_prod : Statement Store
next_prod s result = some (record s { prod_ptr = s.prod_ptr + 1 }, result)

-- if (prod_ptr == buffer + SIZE_BUF) prod_ptr = buffer;
abbrev wrap_prod : Statement Store
wrap_prod s result =
    some (record s { prod_ptr = if s.prod_ptr == size_buf then 0 else s.prod_ptr }, result)

-- if (alpha == 'z') alpha = 'a'; else alpha++;
abbrev next_alpha : Statement Store
next_alpha s result =
    some (record s { alpha = if s.alpha == b'z' then b'a' else s.alpha + 1 }, result)

-- *result = *cons_ptr;
abbrev reply_letter : Statement Store
reply_letter s result = elim (get_elem? s.buffer s.cons_ptr) [ none ↦ none | some c ↦ some (s, c) ]

-- *cons_ptr = '-';
abbrev clear_letter : Statement Store
clear_letter s result = elim (poke s.buffer s.cons_ptr b'-') [
  | none ↦ none
  | some buffer ↦ some (record s { buffer = buffer }, result)
]

-- cons_ptr++;
abbrev next_cons : Statement Store
next_cons s result = some (record s { cons_ptr = s.cons_ptr + 1 }, result)

-- if (cons_ptr == buffer + SIZE_BUF) cons_ptr = buffer;
abbrev wrap_cons : Statement Store
wrap_cons s result =
    some (record s { cons_ptr = if s.cons_ptr == size_buf then 0 else s.cons_ptr }, result)

abbrev pub producer_lines : List (Statement Store)
producer_lines = put_alpha ∷ reply_alpha ∷ next_prod ∷ wrap_prod ∷ next_alpha ∷ []

abbrev pub consumer_lines : List (Statement Store)
consumer_lines = reply_letter ∷ clear_letter ∷ next_cons ∷ wrap_cons ∷ []

-- The two procedures.
abbrev pub by_lines : Moves Store
by_lines m resting = none
by_lines m (waits putting) = call start_prod m (within putting producer_lines 0)
by_lines m (waits taking) = call start_cons m (within taking consumer_lines 0)
by_lines m (within side rest result) = statement side rest result m
by_lines m (leaves putting result) = call stop_prod m resting
by_lines m (leaves taking result) = call stop_cons m resting

abbrev pub lines : Side → List (Statement Store)
lines putting = producer_lines
lines taking = consumer_lines

pub by_lines-eq : (m : Mem Store) (c : Place Store) → by_lines m c ≡ in_statements arrays lines m c
by_lines-eq m resting = refl
by_lines-eq m (waits putting) = refl
by_lines-eq m (waits taking) = refl
by_lines-eq m (within _ _ _) = refl
by_lines-eq m (leaves putting _) = refl
by_lines-eq m (leaves taking _) = refl

-- The statements without an interruption are the section.
pub lines-whole : (side : Side) (s : Store) → run_all (lines side) s 0 ≡ section_of put take side s
unfolding run_all put take
lines-whole putting s = ground arith
lines-whole taking s = elim (Option-cases (get_elem? s.buffer s.cons_ptr)) [
  | inl fault ↦ ground (arith, fault)
  | inr (c, found) ↦ ground (arith, found)
]
