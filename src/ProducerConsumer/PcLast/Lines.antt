-- ===== src/ProducerConsumer/PcLast/Lines.antt =====
-- os_lab_rpc/pc_last/pc_server.c: its two procedures statement by statement.
use os_5sem.Prelude.{
  ◌+◌, ◌≡◌, refl, List, [], ◌∷◌, none, some, ◌==◌, ltb, if◌then◌else◌, length, get_elem?, set,
  arith, Option-cases, inl, inr,
}
use os_5sem.ProducerConsumer.Threads.{Mem, call}
use os_5sem.ProducerConsumer.Statements.{
  Statement, Side, putting, taking, Place, resting, waits, within, leaves, statement, run_all,
  Moves,
}
use os_5sem.ProducerConsumer.Statements.Relation.{in_statements, section_of}
use os_5sem.ProducerConsumer.PcLast.{
  Store, start_produce, stop_produce, start_consume, stop_consume, arrays, producer, consumer,
}

-- **addr_prod = *letter;
abbrev put_letter : Statement Store
put_letter s result =
    if ltb s.addr_prod (length s.buff)
    then some (record s { buff = set s.buff s.addr_prod s.next }, result)
    else none

-- char produced = *letter;
abbrev reply_letter : Statement Store
reply_letter s result = some (s, s.next)

-- (*addr_prod)++;
abbrev next_prod : Statement Store
next_prod s result = some (record s { addr_prod = s.addr_prod + 1 }, result)

-- if (produced == 'z') *letter = 'a'; else (*letter)++;
abbrev next_letter : Statement Store
next_letter s result =
    some (record s { next = if result == b'z' then b'a' else s.next + 1 }, result)

-- char consumed = **addr_cons;
abbrev take_letter : Statement Store
take_letter s result = elim (get_elem? s.buff s.addr_cons) [ none ↦ none | some c ↦ some (s, c) ]

-- (*addr_cons)++;
abbrev next_cons : Statement Store
next_cons s result = some (record s { addr_cons = s.addr_cons + 1 }, result)

abbrev pub producer_lines : List (Statement Store)
producer_lines = put_letter ∷ reply_letter ∷ next_letter ∷ next_prod ∷ []

abbrev pub consumer_lines : List (Statement Store)
consumer_lines = take_letter ∷ next_cons ∷ []

-- The two procedures with their calls of semop.
abbrev pub by_lines : Moves Store
by_lines m resting = none
by_lines m (waits putting) = call start_produce m (within putting producer_lines 0)
by_lines m (waits taking) = call start_consume m (within taking consumer_lines 0)
by_lines m (within side rest result) = statement side rest result m
by_lines m (leaves putting result) = call stop_produce m resting
by_lines m (leaves taking result) = call stop_consume m resting

abbrev pub lines : Side → List (Statement Store)
lines putting = producer_lines
lines taking = consumer_lines

pub by_lines-eq : (m : Mem Store) (c : Place Store) → by_lines m c ≡ in_statements arrays lines m c
by_lines-eq m resting = refl
by_lines-eq m (waits putting) = refl
by_lines-eq m (waits taking) = refl
by_lines-eq m (within _ _ _) = refl
by_lines-eq m (leaves putting _) = refl
by_lines-eq m (leaves taking _) = refl

-- The statements without an interruption are the section.
pub lines-whole :
    (side : Side) (s : Store) → run_all (lines side) s 0 ≡ section_of producer consumer side s
unfolding run_all producer consumer
lines-whole putting s = ground arith
lines-whole taking s = elim (Option-cases (get_elem? s.buff s.addr_cons)) [
  | inl fault ↦ ground (arith, fault)
  | inr (c, found) ↦ ground (arith, found)
]
