-- ===== src/Bakery/Obakery.antt =====
-- os_lab_rpc/obakery/bakery_server.c: the older bakery server. It serves one request at a time, so
-- that nothing changes while it waits, and each of its waits ends after a second.
pub mod Service
mod Examples
use os_5sem.Prelude.{
  ℕ, zero, suc, ◌+◌, ◌-◌, ◌≢◌, ◌≤◌, ◌<◌, ◌≡◌, refl, Bool, true, false, Option, none, some, ◌==◌,
  ltb, not, ◌&&◌, ◌||◌, if◌then◌else◌, arith, ℕ_discrete, dec_lt,
}
use mathlib.Core.Path.{subst}
use os_5sem.Prelude.Family.{update}

abbrev pub count_clients : ℕ
count_clients = 1000

pub record State : Type 0 where
  pub choosing : ℕ → Bool
  pub numbers : ℕ → ℕ
  pub number_last : ℕ
  pub index_last : ℕ
  pub refused : Bool  -- whether the static `result` of serve_1_svc has num = -1, from a refusal

abbrev pub at_start : State
at_start = record {
  choosing = λ _. false;
  numbers = λ _. 0;
  number_last = 0;
  index_last = 0;
  refused = false;
}

-- `res` after the first rounds of the loop.
unfoldable pub max_loop : (ℕ → ℕ) → ℕ → ℕ
max_loop numbers zero = 0
max_loop numbers (suc i) =
    let res = max_loop numbers i in if ltb res (numbers i) then numbers i else res

abbrev pub max_number : (ℕ → ℕ) → ℕ
max_number numbers = max_loop numbers count_clients

-- `num` and `ind` of the reply; `none` for an access past the arrays.
unfoldable pub get_number_1_svc : State → Option ((ℕ × ℕ) × State)
get_number_1_svc s =
    if ltb s.index_last count_clients
    then (let num = max_number s.numbers + 1 in
        some (
          (num, s.index_last),
          record s {
            choosing = update s.choosing s.index_last false;
            numbers = update s.numbers s.index_last num;
            index_last = s.index_last + 1;
          },
        ))
    else none

-- The test of the inner loop, for the client `ind` and the index `j`.
abbrev pub waits : State → ℕ → ℕ → Bool
waits s ind j =
    ltb s.number_last (s.numbers j)
    && (ltb (s.numbers j) (s.numbers ind) || (s.numbers j == s.numbers ind) && ltb j ind)

-- How often the first rounds of the outer loop wait, each time for a second.
unfoldable pub delays : State → ℕ → ℕ → ℕ
delays s ind zero = 0
delays s ind (suc j) = let before = delays s ind j in if waits s ind j then before + 1 else before

pub data Outcome : Type 0 where
  late : Outcome  -- result.num = -1
  served : Bool → ℕ → Outcome  -- whether the reply has num = -1 all the same, and the waits before

-- `none`: an access past the arrays, or the wait for the own flag, which nothing ends. The switch over
-- the operation is that of `compute`.
unfoldable pub serve_1_svc : State → ℕ → Option (Outcome × State)
serve_1_svc s ind =
    if not (ltb ind count_clients)
    then none
    else if ltb (s.numbers ind) s.number_last
    then some (late, record s { refused = true })
    else if s.choosing ind
    then none
    else some
        (served s.refused (delays s ind count_clients), record s { number_last = s.numbers ind })

-- The states that requests lead to.
pub data Reach : State → Type 0 where
  start : Reach at_start
  asked : {s t : State} {r : ℕ × ℕ} → Reach s → get_number_1_svc s ≡ some (r, t) → Reach t
  answered :
      {s t : State} {r : Outcome} (ind : ℕ) → Reach s → serve_1_svc s ind ≡ some (r, t) → Reach t

max_loop-bound :
    (numbers : ℕ → ℕ) (k m : ℕ) → ((i : ℕ) → i < m → numbers i ≤ k) → max_loop numbers m ≤ k
unfolding max_loop
max_loop-bound numbers k zero h = omega arith
max_loop-bound numbers k (suc m) h =
    ground (arith, max_loop-bound numbers k m (λ i lt. h i (omega arith)), h m (omega arith))

le-max_loop : (numbers : ℕ → ℕ) (m i : ℕ) → i < m → numbers i ≤ max_loop numbers m
unfolding max_loop
le-max_loop numbers zero i h = absurd (omega arith)
le-max_loop numbers (suc m) i h = elim (dec_lt i m) [
  | yes below ↦ ground (arith, le-max_loop numbers m i below)
  | no last ↦ ground arith
]

-- Client `i` has the number i + 1, and no others have one.
pub record Inv (s : State) : Type 0 where
  pub fits : s.index_last ≤ count_clients
  pub given : (i : ℕ) → i < s.index_last → s.numbers i ≡ i + 1
  pub fresh : (i : ℕ) → s.index_last ≤ i → s.numbers i ≡ 0
  pub quiet : (i : ℕ) → s.choosing i ≡ false

max_number-eq : (s : State) → Inv s → max_number s.numbers ≡ s.index_last
max_number-eq s inv =
    let low : max_number s.numbers ≤ s.index_last =
      max_loop-bound s.numbers s.index_last count_clients (λ i lt. elim (dec_lt i s.index_last) [
        | yes has ↦ omega (arith, inv.given i has)
        | no has_none ↦ omega (arith, inv.fresh i (omega arith))
      ]) in
    elim (dec_lt 0 s.index_last) [
      | yes some_client ↦ omega (
        arith,
        low,
        inv.given (s.index_last - 1) (omega arith),
        inv.fits,
        le-max_loop s.numbers count_clients (s.index_last - 1) (omega (arith, inv.fits)),
      )
      | no no_client ↦ omega (arith, low)
    ]

abbrev pub next : State → State
next s = record s {
  choosing = update s.choosing s.index_last false;
  numbers = update s.numbers s.index_last (s.index_last + 1);
  index_last = s.index_last + 1;
}

get_number-eq :
    (s : State)
    → Inv s
    → s.index_last < count_clients
    → get_number_1_svc s ≡ some ((s.index_last + 1, s.index_last), next s)
unfolding get_number_1_svc
get_number-eq s inv room = rw (max_number-eq s inv) (ground arith)

next-Inv : (s : State) → Inv s → s.index_last < count_clients → Inv (next s)
next-Inv s inv room = record {
  fits = omega arith;
  given = λ i lt. ground (arith, inv.given i);
  fresh = λ i le. ground (arith, inv.fresh i);
  quiet = λ i. ground (arith, inv.quiet i);
}

refused :
    (s t : State) (r : ℕ × ℕ) → count_clients ≤ s.index_last → get_number_1_svc s ≢ some (r, t)
unfolding get_number_1_svc
refused s t r many e = ground arith

asked-Inv : (s t : State) (r : ℕ × ℕ) → Inv s → get_number_1_svc s ≡ some (r, t) → Inv t
asked-Inv s t r inv e = elim (dec_lt s.index_last count_clients) [
  | yes room ↦
      let same : next s ≡ t = cc (e, get_number-eq s inv room) in
      subst Inv same (next-Inv s inv room)
  | no full ↦ absurd (refused s t r (omega arith) e)
]

answered-Inv :
    (s t : State) (r : Outcome) (ind : ℕ) → Inv s → serve_1_svc s ind ≡ some (r, t) → Inv t
unfolding serve_1_svc
answered-Inv s t r ind inv e =
    let kept : (t.numbers ≡ s.numbers) × (t.index_last ≡ s.index_last) × (t.choosing ≡ s.choosing) =
      ground arith in
    record {
      fits = omega (arith, inv.fits, kept);
      given = λ i lt. ground (arith, kept, inv.given i);
      fresh = λ i le. ground (arith, kept, inv.fresh i);
      quiet = λ i. ground (arith, kept, inv.quiet i);
    }

pub Reach-Inv : {s : State} → Reach s → Inv s
Reach-Inv start = record {
  fits = omega arith;
  given = λ i lt. absurd (omega arith);
  fresh = λ i le. refl;
  quiet = λ i. refl;
}
Reach-Inv (asked {s} {t} {r} q e) = asked-Inv s t r (Reach-Inv q) e
Reach-Inv (answered {s} {t} {r} ind q e) = answered-Inv s t r ind (Reach-Inv q) e

-- The first thousand requests for a number get the numbers from 1 on, with the indices from 0 on, and
-- the next one is past the arrays.
pub obakery_numbers :
    (s : State)
    → Reach s
    → (get_number_1_svc s ≡ (
        if ltb s.index_last count_clients
        then some ((s.index_last + 1, s.index_last), next s)
        else none))
unfolding get_number_1_svc
obakery_numbers s r = rw (max_number-eq s (Reach-Inv r)) refl

-- Of two clients with numbers, the one with the later number is served if it asks first, while no
-- greater number was served, and the earlier one is then refused; and when the later one asks again,
-- it is served again, but its reply has the -1 of the refusal.
pub obakery_late :
    (s : State) (i j : ℕ)
    → Reach s
    → i < j
    → j < s.index_last
    → s.number_last ≤ j + 1
    → (t u v : State) × (serve_1_svc s j ≡ some (served s.refused (delays s j count_clients), t))
      × (serve_1_svc t i ≡ some (late, u))
      × (serve_1_svc u j ≡ some (served true (delays u j count_clients), v))
unfolding serve_1_svc
obakery_late s i j r lt low last =
    let inv = Reach-Inv r in
    (
      record s { number_last = s.numbers j },
      record s { number_last = s.numbers j; refused = true },
      record s { number_last = s.numbers j; refused = true },
      ground (arith, inv.fits, inv.given j low, inv.quiet j),
      ground (arith, inv.fits, inv.given j low, inv.given i (omega arith)),
      ground (arith, inv.fits, inv.given j low, inv.quiet j),
    )
