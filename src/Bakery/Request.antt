-- ===== src/Bakery/Request.antt =====
-- os_lab_rpc/bakery/bakery_svc.c, the requests, each while no other thread runs, and the client of
-- os_lab_rpc/bakery/bakery_client.c.
use os_5sem.Prelude.{
  ℕ, zero, suc, ◌+◌, ◌≤◌, ◌<◌, ◌≡◌, ◌≢◌, ◌∙◌, refl, ap, inl, inr, Bool-cases, Bool, true, false,
  Option, none, some, not, ltb, if◌then◌else◌, arith, ℕ_discrete,
}
use os_5sem.Prelude.Family.{update}
use os_5sem.Bakery.{
  Shared, count_clients, max_number, waits_for, Pc, asks, serving, finished, serve_1_svc, compute,
}

pub data Proc : Type 0 where
  nullproc get_number serve other : Proc

-- struct BAKERY, as far as the server reads it.
pub record Argument (F : Type 0) : Type 0 where
  pub pid : ℕ
  pub ind : ℕ
  pub op : ℕ
  pub arg1 : F
  pub arg2 : F

-- How malloc, svc_getargs and svc_sendreply end. What svc_freeargs returns makes no difference.
pub record Transport : Type 0 where
  pub allocates : Bool
  pub decodes : Bool
  pub sends : Bool

pub data Answer (R : Type 0) : Type 0 where
  null_reply noproc decode_error system_error : Answer R
  number : ℕ → Answer R
  result : R → Answer R

pub data Outcome (R : Type 0) : Type 0 where
  exits : Outcome R
  answered : Answer R → Shared → Outcome R

abbrev ended : (Shared → Pc → Option Shared) → Shared → Pc → Option Shared
ended more s finished = some s
ended more s asks = more s asks
ended more s c = more s c

abbrev and_on : (Shared → Pc → Option Shared) → Option (Shared × Pc) → Option Shared
and_on more none = none
and_on more (some (s, c)) = ended more s c

-- The moves of `serve_1_svc` one after the other; `none` if it has not returned after so many.
unfoldable pub serve_alone : ℕ → ℕ → Shared → Pc → Option Shared
serve_alone zero ind s c = none
serve_alone (suc fuel) ind s c = and_on (serve_alone fuel ind) (serve_1_svc ind s c)

-- The five tests, the end of the loop, and the reset.
abbrev pub rounds : ℕ
rounds = 7

-- `get_number_1_svc` in a thread that no other one interrupts: max_number() runs through.
abbrev number_alone : ℕ → ℕ → Shared → Option (ℕ × Shared)
number_alone pid ind s =
    if s.locked ind
    then none
    else (let num = max_number s.numbers + 1 in
        some (
          num,
          record {
            numbers = update s.numbers ind num;
            pids = update s.pids ind pid;
            locked = update (update s.locked ind true) ind false;
          },
        ))

abbrev reply : {R : Type 0} → Transport → Answer R → Answer R
reply t a = if t.sends then a else system_error

module _ {F R : Type 0} (add sub mul div : F → F → F) (to_int : F → R) (before : R) where
  -- `none` where the thread waits for ever, or leaves the arrays.
  unfoldable pub serv_request : Proc → Transport → Argument F → Shared → Option (Outcome R)
  serv_request nullproc t a s = some (answered null_reply s)
  serv_request get_number t a s =
      if not (ltb a.ind count_clients) then none else elim (number_alone a.pid a.ind s) [
        | none ↦ none
        | some (num, s') ↦ some (answered (reply t (number num)) s')
      ]
  serv_request serve t a s =
      if not (ltb a.ind count_clients)
      then none
      else elim (serve_alone rounds a.ind s (serving 0)) [
        | none ↦ none
        | some s' ↦ some (
            answered (reply t (result (compute add sub mul div to_int a.op a.arg1 a.arg2 before)))
              s')
      ]
  serv_request other t a s = some (answered noproc s)

  unfoldable pub bakery_prog_1 : Proc → Transport → Argument F → Shared → Option (Outcome R)
  unfolding serv_request
  bakery_prog_1 proc t a s =
      if not t.allocates
      then some exits
      else if not t.decodes
      then some (answered decode_error s)
      else serv_request proc t a s

abbrev pub reset : ℕ → Shared → Shared
reset ind s = record s { numbers = update s.numbers ind 0; pids = update s.pids ind 0 }

step_past :
    (ind i : ℕ) (s : Shared)
    → i ≢ count_clients
    → s.locked ind ≡ false
    → waits_for s ind i ≡ false
    → serve_1_svc ind s (serving i) ≡ some (s, serving (i + 1))
step_past ind i s more free goes = ground arith

step_here :
    (ind i : ℕ) (s : Shared)
    → i ≢ count_clients
    → s.locked ind ≡ false
    → waits_for s ind i ≡ true
    → serve_1_svc ind s (serving i) ≡ some (s, serving i)
step_here ind i s more free stays = ground arith

serve_walk :
    (k ind i : ℕ) (s : Shared)
    → i + k ≡ count_clients
    → s.locked ind ≡ false
    → ((j : ℕ) → j < count_clients → waits_for s ind j ≡ false)
    → serve_alone (suc (suc k)) ind s (serving i) ≡ some (reset ind s)
unfolding serve_alone
serve_walk zero ind i s sum free passes = ground arith
serve_walk (suc k) ind i s sum free passes =
    ap (and_on (serve_alone (suc (suc k)) ind))
      (step_past ind i s (omega arith) free (passes i (omega arith)))
    ∙ serve_walk k ind (i + 1) s (omega arith) free passes

-- A thread that has to wait goes on for ever, while no other one runs.
serve_stuck :
    (fuel ind i : ℕ) (s : Shared) (j : ℕ)
    → i ≤ j
    → j < count_clients
    → s.locked ind ≡ false
    → waits_for s ind j ≡ true
    → serve_alone fuel ind s (serving i) ≡ none
unfolding serve_alone
serve_stuck zero ind i s j low lt free waits = refl
serve_stuck (suc fuel) ind i s j low lt free waits = elim (Bool-cases (waits_for s ind i)) [
  | inl stays ↦
      ap (and_on (serve_alone fuel ind)) (step_here ind i s (omega arith) free stays)
      ∙ serve_stuck fuel ind i s j low lt free waits
  | inr goes ↦
      ap (and_on (serve_alone fuel ind)) (step_past ind i s (omega arith) free goes)
      ∙ serve_stuck fuel ind (i + 1) s j
          (elim (ℕ_discrete i j) [
            | yes it ↦ absurd (cc (waits, goes, it))
            | no before ↦ omega arith
          ])
          lt free waits
]

passes_all : (s : Shared) (ind j : ℕ) → s.numbers ind ≡ 0 → waits_for s ind j ≡ false
unfolding waits_for
passes_all s ind j unused = ground arith

module _ {F R : Type 0} (add sub mul div : F → F → F) (to_int : F → R) (before : R) (t : Transport)
    (a : Argument F) (s : Shared) (works : t.allocates ≡ true) (decodes : t.decodes ≡ true)
    (sends : t.sends ≡ true) (low : a.ind < count_clients) (free : s.locked a.ind ≡ false) where
  abbrev bakery : Proc → Shared → Option (Outcome R)
  bakery proc s' = bakery_prog_1 add sub mul div to_int before proc t a s'

  abbrev value : R
  value = compute add sub mul div to_int a.op a.arg1 a.arg2 before

  ask :
      bakery get_number s
      ≡ some (
          answered (number (max_number s.numbers + 1)) (record {
            numbers = update s.numbers a.ind (max_number s.numbers + 1);
            pids = update s.pids a.ind a.pid;
            locked = update (update s.locked a.ind true) a.ind false;
          }))
  unfolding bakery_prog_1 ℕ_discrete
  ask = ground (arith, works, decodes, sends, low, free)

  -- A request to be served, in a thread that no other one interrupts, is answered with the value of
  -- the operation if the client has no other one to wait for, and then resets the client's number; and
  -- it never returns if there is one to wait for.
  pub bakery_serves :
      (((j : ℕ) → j < count_clients → waits_for s a.ind j ≡ false)
        → bakery serve s ≡ some (answered (result value) (reset a.ind s)))
      × ((j : ℕ)
          → j < count_clients
          → waits_for s a.ind j ≡ true
          → (bakery serve s ≡ none) × ((fuel : ℕ) → serve_alone fuel a.ind s (serving 0) ≡ none))
  unfolding bakery_prog_1
  bakery_serves = (
    λ passes. ground (arith, works, decodes, sends, low, serve_walk 5 a.ind 0 s refl free passes),
    λ j lt waits. (
      ground (
        arith,
        works,
        decodes,
        sends,
        low,
        serve_stuck rounds a.ind 0 s j (omega arith) lt free waits,
      ),
      λ fuel. serve_stuck fuel a.ind 0 s j (omega arith) lt free waits,
    ),
  )

  -- A client whose first request came to nothing has the number 0.  It is served at once, whatever
  -- numbers the other clients have.
  pub bakery_unnumbered :
      s.numbers a.ind ≡ 0 → bakery serve s ≡ some (answered (result value) (reset a.ind s))
  bakery_unnumbered unused = bakery_serves.0 (λ j lt. passes_all s a.ind j unused)
