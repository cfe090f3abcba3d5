-- ===== src/ProducerConsumer/Pc2/Lines.antt =====
-- os_lab_rpc/pc2/pc_server.c and pc_svc.c: its procedures statement by statement, between the calls of
-- semop in `serv_request`.
use os_5sem.Prelude.{
  ◌+◌, ◌≡◌, refl, List, [], ◌∷◌, none, some, ◌==◌, ltb, if◌then◌else◌, length, get_elem?, set,
  arith, Option-cases, inl, inr,
}
use os_5sem.ProducerConsumer.Threads.{Mem, call}
use os_5sem.ProducerConsumer.Statements.{
  Statement, Side, putting, taking, Place, resting, waits, within, leaves, statement, run_all,
  Moves,
}
use os_5sem.ProducerConsumer.Statements.Relation.{in_statements, section_of}
use os_5sem.ProducerConsumer.Straight.{Store}
use os_5sem.ProducerConsumer.Pc2.{
  start_prod, stop_prod, start_cons, stop_cons, arrays, producer_1_svc, consumer_1_svc,
}

-- *prod_ptr = alpha;
abbrev put_letter : Statement Store
put_letter s result =
    if ltb s.prod_ptr (length s.buffer)
    then some (record s { buffer = set s.buffer s.prod_ptr s.alpha }, result)
    else none

-- *result = alpha;
abbrev reply_letter : Statement Store
reply_letter s result = some (s, s.alpha)

-- prod_ptr++;
abbrev next_prod : Statement Store
next_prod s result = some (record s { prod_ptr = s.prod_ptr + 1 }, result)

-- if (alpha == 'z') alpha = 'a'; else alpha++;
abbrev next_letter : Statement Store
next_letter s result =
    some (record s { alpha = if s.alpha == b'z' then b'a' else s.alpha + 1 }, result)

-- *result = *cons_ptr;
abbrev take_letter : Statement Store
take_letter s result = elim (get_elem? s.buffer s.cons_ptr) [ none ↦ none | some c ↦ some (s, c) ]

-- cons_ptr++;
abbrev next_cons : Statement Store
next_cons s result = some (record s { cons_ptr = s.cons_ptr + 1 }, result)

abbrev pub producer_lines : List (Statement Store)
producer_lines = put_letter ∷ reply_letter ∷ next_prod ∷ next_letter ∷ []

abbrev pub consumer_lines : List (Statement Store)
consumer_lines = take_letter ∷ next_cons ∷ []

-- The part of `serv_request` that calls semop.
abbrev pub by_lines : Moves Store
by_lines m resting = none
by_lines m (waits putting) = call start_prod m (within putting producer_lines 0)
by_lines m (waits taking) = call start_cons m (within taking consumer_lines 0)
by_lines m (within side rest result) = statement side rest result m
by_lines m (leaves putting result) = call stop_prod m resting
by_lines m (leaves taking result) = call stop_cons m resting

abbrev pub lines : Side → List (Statement Store)
lines putting = producer_lines
lines taking = consumer_lines

pub by_lines-eq : (m : Mem Store) (c : Place Store) → by_lines m c ≡ in_statements arrays lines m c
by_lines-eq m resting = refl
by_lines-eq m (waits putting) = refl
by_lines-eq m (waits taking) = refl
by_lines-eq m (within _ _ _) = refl
by_lines-eq m (leaves putting _) = refl
by_lines-eq m (leaves taking _) = refl

-- The statements without an interruption are the section.
pub lines-whole :
    (side : Side) (s : Store)
    → run_all (lines side) s 0 ≡ section_of producer_1_svc consumer_1_svc side s
unfolding run_all producer_1_svc consumer_1_svc
lines-whole putting s = ground arith
lines-whole taking s = elim (Option-cases (get_elem? s.buffer s.cons_ptr)) [
  | inl fault ↦ ground (arith, fault)
  | inr (c, found) ↦ ground (arith, found)
]
