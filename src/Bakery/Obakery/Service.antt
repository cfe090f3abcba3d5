-- ===== src/Bakery/Obakery/Service.antt =====
-- os_lab_rpc/obakery/bakery_svc.c: the requests of the older bakery server, one at a time, and its
-- start.
use os_5sem.Prelude.{
  ℕ, zero, suc, ◌+◌, ◌<◌, ◌≡◌, refl, Bool, true, false, [], ◌∷◌, Option, none, some, not, ◌&&◌,
  if◌then◌else◌, arith, dec_lt,
}
use os_5sem.Posix.Semop.{Sems}
use os_5sem.Posix.Script.{pmap_unset, svc_create, svc_register, svc_run, Host, service}
use os_5sem.Posix.Script.Registration.{registration_lem}
use os_5sem.Bakery.Obakery.{
  State, count_clients, Outcome, served, get_number_1_svc, serve_1_svc, delays, waits, Reach, next,
  obakery_numbers, Inv, Reach-Inv,
}

-- How the calls of the RPC library end: svc_getargs, svc_sendreply and svc_freeargs.
pub record Transport : Type 0 where
  pub decodes : Bool
  pub sends : Bool
  pub frees : Bool

pub data Answer : Type 0 where
  null_reply noproc decode_error system_error : Answer
  number : ℕ → ℕ → Answer  -- num and ind
  outcome : Outcome → Answer

-- With the `ind` of the argument of SERVE.
pub data Proc : Type 0 where
  nullproc get_number other : Proc
  serve : ℕ → Proc

pub record Served : Type 0 where
  pub answer : Answer
  pub state : State
  pub exits : Bool

abbrev pub finish : Transport → Answer → State → Served
finish t a s = record {
  answer = if t.sends then a else system_error;
  state = s;
  exits = not t.frees;
}

-- `none` where the procedure does not return.
unfoldable pub bakery_prog_1 : Proc → Transport → State → Option Served
bakery_prog_1 nullproc t s = some (record { answer = null_reply; state = s; exits = false })
bakery_prog_1 get_number t s =
    if not t.decodes
    then some (record { answer = decode_error; state = s; exits = false })
    else elim (get_number_1_svc s) [
      | none ↦ none
      | some ((num, ind), s') ↦ some (finish t (number num ind) s')
    ]
bakery_prog_1 (serve ind) t s =
    if not t.decodes
    then some (record { answer = decode_error; state = s; exits = false })
    else elim (serve_1_svc s ind) [ none ↦ none | some (r, s') ↦ some (finish t (outcome r) s') ]
bakery_prog_1 other t s = some (record { answer = noproc; state = s; exits = false })

abbrev pub main : (ℕ → Bool) → Sems → ℕ × Host
main ok found =
    service ok found
      (pmap_unset ∷ svc_create ∷ svc_register ∷ svc_create ∷ svc_register ∷ svc_run ∷ [])

delays-zero :
    (s : State) (ind k : ℕ) → ((j : ℕ) → j < k → waits s ind j ≡ false) → delays s ind k ≡ 0
unfolding delays
delays-zero s ind zero h = refl
delays-zero s ind (suc k) h =
    ground (arith, h k (omega arith), delays-zero s ind k (λ j lt. h j (omega arith)))

-- Nobody has a number between the last one served and the next one.
no_waits :
    (s : State) (j : ℕ)
    → Inv s
    → s.number_last ≡ s.index_last
    → waits (next s) s.index_last j ≡ false
no_waits s j inv all = elim (dec_lt j s.index_last) [
  | yes before ↦ ground (arith, inv.given j before, all)
  | no after ↦ ground (arith, inv.fresh j (omega arith), all)
]

next_served :
    (s : State)
    → Reach s
    → s.number_last ≡ s.index_last
    → s.index_last < count_clients
    → serve_1_svc (next s) s.index_last
      ≡ some (served s.refused 0, record (next s) { number_last = s.index_last + 1 })
unfolding serve_1_svc
next_served s r all room =
    let inv = Reach-Inv r in
    ground
      (arith, all, delays-zero (next s) s.index_last count_clients (λ j lt. no_waits s j inv all))

-- While all clients before it were served and fewer than 1000 have a number, a client that asks for a
-- number and then for its service, in requests that are decoded, answered and freed, gets the next
-- number, and is served without a wait, with num = -1 in the reply if some client was refused before;
-- and then all clients are served again, and the server goes on.
pub obakery_round :
    (t : Transport) (s : State)
    → Reach s
    → t.decodes ≡ true
    → t.sends ≡ true
    → t.frees ≡ true
    → s.number_last ≡ s.index_last
    → s.index_last < count_clients
    → (bakery_prog_1 get_number t s
        ≡ some (record {
          answer = number (s.index_last + 1) s.index_last;
          state = next s;
          exits = false;
        }))
      × (bakery_prog_1 (serve s.index_last) t (next s)
          ≡ some (record {
            answer = outcome (served s.refused 0);
            state = record (next s) { number_last = s.index_last + 1 };
            exits = false;
          }))
unfolding bakery_prog_1
obakery_round t s r decodes sends frees all room = (
  ground (arith, decodes, sends, frees, obakery_numbers s r),
  ground (arith, decodes, sends, frees, next_served s r all room),
)

-- The service is offered over udp if the first two calls succeed, and over tcp too if all four do; the
-- exit status is 1 in every case.
pub obakery_main_lem :
    (ok : ℕ → Bool) (found : Sems)
    → ((main ok found).0 ≡ 1)
      × ((main ok found).1.registered
          ≡ (if ok 1 && ok 2 then (if ok 3 && ok 4 then 2 else 1) else 0))
obakery_main_lem ok found = registration_lem ok found
