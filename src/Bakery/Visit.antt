-- ===== src/Bakery/Visit.antt =====
-- os_lab_rpc/bakery/bakery_client.c, `bakery_prog_1`: the two requests of a client, while no other
-- client makes one.
use os_5sem.Prelude.{
  ℕ, ◌+◌, ◌≢◌, refl, inl, inr, Bool-cases, ◌<◌, ◌≡◌, Bool, true, false, Option, none, some,
  if◌then◌else◌, arith, ℕ_discrete,
}
use os_5sem.Prelude.Family.{update}
use os_5sem.Bakery.{Shared, count_clients, max_number, waits_for}
use os_5sem.Bakery.Request.{
  Transport, Argument, get_number, serve, Answer, number, system_error, decode_error, Outcome,
  answered, result, exits, reset, bakery_prog_1, bakery_serves,
}

-- How the calls of the client end: whether clnt_create succeeds, whether the requests reach the
-- server, and how it can treat them.
pub record Calls : Type 0 where
  pub created : Bool
  pub sent1 : Bool
  pub sent2 : Bool
  pub first : Transport
  pub second : Transport

pub data Ended (R : Type 0) : Type 0 where
  exit_1 : Ended R
  returned : Option (Answer R) → Shared → Ended R  -- the answer to `serve`, if one came
  no_server : Ended R

abbrev pub request : {F : Type 0} → ℕ → ℕ → F → F → Argument F
request pid ind two three = record { pid = pid; ind = ind; op = 0; arg1 = two; arg2 = three }

module _ {F R : Type 0} (add sub mul div : F → F → F) (to_int : F → R) (before : R) where
  -- A request that does not arrive changes nothing.
  abbrev sends : Bool → Option (Outcome R) → Shared → Option (Outcome R)
  sends arrives r s = if arrives then r else some (answered Answer.system_error s)

  abbrev second_call : Calls → Argument F → Option (Outcome R) → Option (Ended R)
  second_call c a none = none
  second_call c a (some exits) = some no_server
  second_call c a (some (answered r s)) =
      if c.sent2
      then (elim (bakery_prog_1 add sub mul div to_int before serve c.second a s) [
        | none ↦ none
        | some exits ↦ some no_server
        | some (answered r' s') ↦ some (returned (some r') s')
      ])
      else some (returned none s)

  -- The client goes on to the second request however the first one ended. `none` if it waits for ever.
  unfoldable pub visit : Calls → ℕ → ℕ → F → F → Shared → Option (Ended R)
  visit c pid ind two three s =
      let a = request pid ind two three in
      if c.created
      then second_call c a
          (sends c.sent1 (bakery_prog_1 add sub mul div to_int before get_number c.first a s) s)
      else some exit_1

-- No other client has a number, and no mutex is held.
record Alone (ind : ℕ) (s : Shared) : Type 0 where
  others : (k : ℕ) → k ≢ ind → s.numbers k ≡ 0
  open_all : (k : ℕ) → s.locked k ≡ false

abbrev pub Quiet : Shared → Type 0
Quiet s = (k : ℕ) → (s.numbers k ≡ 0) × (s.locked k ≡ false)

passes : (ind : ℕ) (s : Shared) → Alone ind s → (j : ℕ) → waits_for s ind j ≡ false
unfolding waits_for
passes ind s h j = elim (ℕ_discrete j ind) [
  | yes it ↦ ground (arith, it)
  | no other_one ↦ ground (arith, h.others j other_one)
]

module _ {F R : Type 0} (add sub mul div : F → F → F) (to_int : F → R) (before : R) (pid ind : ℕ)
    (two three : F) (low : ind < count_clients) where
  abbrev ask : Transport → Shared → Option (Outcome R)
  ask t s = bakery_prog_1 add sub mul div to_int before get_number t (request pid ind two three) s

  asked :
      (t : Transport) (s : Shared)
      → t.allocates ≡ true
      → Quiet s
      → (r : Answer R) × (s1 : Shared) × (ask t s ≡ some (answered r s1)) × Alone ind s1
  unfolding bakery_prog_1 ℕ_discrete
  asked t s works quiet = elim (Bool-cases t.decodes) [
    | inl decodes ↦ (
      if t.sends then number (max_number s.numbers + 1) else system_error,
      record {
        numbers = update s.numbers ind (max_number s.numbers + 1);
        pids = update s.pids ind pid;
        locked = update (update s.locked ind true) ind false;
      },
      ground (arith, works, decodes, low, quiet ind),
      record { others = λ k off. ground (arith, quiet k); open_all = λ k. ground (arith, quiet k) },
    )
    | inr fails ↦ (
      decode_error,
      s,
      ground (arith, works, fails),
      record { others = λ k off. (quiet k).0; open_all = λ k. (quiet k).1 },
    )
  ]

  first :
      (arrives : Bool) (t : Transport) (s : Shared)
      → t.allocates ≡ true
      → Quiet s
      → (r : Answer R) × (s1 : Shared) × (sends add sub mul div to_int before arrives (ask t s) s
          ≡ some (answered r s1))
        × Alone ind s1
  first true t s works quiet = asked t s works quiet
  first false t s works quiet =
      (system_error, s, refl, record { others = λ k off. (quiet k).0; open_all = λ k. (quiet k).1 })

  abbrev done : Shared → Outcome R
  done s1 = answered (result (to_int (add two three))) (reset ind s1)

  second :
      (c : Calls) (s : Shared) (r : Answer R) (s1 : Shared)
      → c.created ≡ true
      → c.sent2 ≡ true
      → sends add sub mul div to_int before c.sent1 (ask c.first s) s ≡ some (answered r s1)
      → bakery_prog_1 add sub mul div to_int before serve c.second (request pid ind two three) s1
        ≡ some (done s1)
      → visit add sub mul div to_int before c pid ind two three s
        ≡ some (returned (some (result (to_int (add two three)))) (reset ind s1))
  unfolding visit
  second c s r s1 made sent e served = rw (made, e, sent, served) refl

  -- While no other client makes a request, and no client has a number: a client whose second request
  -- is treated gets the sum of 2 and 3, also if its first one does not arrive, is not decoded or is not
  -- answered, as long as the server is there; and then again no client has a number.
  pub bakery_visit :
      (c : Calls) (s : Shared)
      → c.created ≡ true
      → c.first.allocates ≡ true
      → c.sent2 ≡ true
      → c.second.allocates ≡ true
      → c.second.decodes ≡ true
      → c.second.sends ≡ true
      → Quiet s
      → (s' : Shared) × (visit add sub mul div to_int before c pid ind two three s
          ≡ some (returned (some (result (to_int (add two three)))) s'))
        × Quiet s'
  bakery_visit c s made there sent works decodes answers quiet =
      let (r, s1, e, alone) = first c.sent1 c.first s there quiet in
      let served =
        (bakery_serves add sub mul div to_int before c.second (request pid ind two three) s1 works
            decodes answers low (alone.open_all ind)).0
          (λ j lt. passes ind s1 alone j) in
      (
        reset ind s1,
        second c s r s1 made sent e served,
        λ k. (ground (arith, alone.others k), alone.open_all k),
      )
