-- ===== src/Calculator.antt =====
-- os_lab_rpc/calc: a server that calculates with two floats, and its client. The operations on floats
-- are parameters.
use os_5sem.Prelude.{
  ℕ, ◌-◌, ◌<◌, ◌≡◌, Bool, true, false, [], ◌∷◌, Option, none, some, ◌==◌, ltb, not, ◌||◌, ◌&&◌,
  if◌then◌else◌, arith,
}
use os_5sem.Posix.Semop.{Sems}
use os_5sem.Posix.Script.{pmap_unset, svc_create, svc_register, svc_run, Host, service}
use os_5sem.Posix.Script.Registration.{registration_lem}

-- How the calls of the RPC library end: svc_getargs, svc_sendreply and svc_freeargs.
pub record Transport : Type 0 where
  pub decodes : Bool
  pub sends : Bool
  pub frees : Bool

pub data Answer (F : Type 0) : Type 0 where
  null_reply noproc decode_error system_error : Answer F
  replied : F → Answer F

pub data Proc : Type 0 where
  nullproc calculator_proc other : Proc

-- `struct CALCULATOR` without its result.
pub record Request (F : Type 0) : Type 0 where
  pub op : ℕ
  pub arg1 : F
  pub arg2 : F

-- The answer, the static result that stays for the next request, and whether the server exits.
pub record Served (F : Type 0) : Type 0 where
  pub answer : Answer F
  pub result : F
  pub exits : Bool

-- What a run of the client comes to.
pub data Shown (F : Type 0) : Type 0 where
  exited_1 : Shown F
  no_answer : Shown F  -- result_1 is NULL, and is read all the same
  prints : F → Shown F

-- The op that the client makes of a character, or none where it exits.
unfoldable pub chosen : ℕ → Option ℕ
chosen c = if ltb b'3' c || ltb c b'0' then none else some (c - b'0')

abbrev pub main : (ℕ → Bool) → Sems → ℕ × Host
main ok found =
    service ok found
      (pmap_unset ∷ svc_create ∷ svc_register ∷ svc_create ∷ svc_register ∷ svc_run ∷ [])

module _ {F : Type 0} (add sub mul div : F → F → F) where
  -- `result` is static: any other operation leaves what stood there.
  unfoldable pub calculator_proc_1_svc : Request F → F → F
  calculator_proc_1_svc r result =
      if r.op == 0
      then add r.arg1 r.arg2
      else if r.op == 1
      then sub r.arg1 r.arg2
      else if r.op == 2
      then mul r.arg1 r.arg2
      else if r.op == 3
      then div r.arg1 r.arg2
      else result

  unfoldable pub calculator_prog_1 : Proc → Transport → Request F → F → Served F
  calculator_prog_1 nullproc t r result = record {
    answer = null_reply;
    result = result;
    exits = false;
  }
  calculator_prog_1 calculator_proc t r result =
      let new = calculator_proc_1_svc r result in
      if not t.decodes
      then record { answer = decode_error; result = result; exits = false }
      else record {
        answer = if t.sends then replied new else system_error;
        result = new;
        exits = not t.frees;
      }
  calculator_prog_1 other t r result = record { answer = noproc; result = result; exits = false }

  abbrev pub print_result : Answer F → Shown F
  print_result (replied x) = prints x
  print_result _ = no_answer

  -- The client with the character `c` and two numbers, against a server with this result.
  unfoldable pub client : ℕ → F → F → Transport → F → Shown F
  client c arg1 arg2 t result = elim (chosen c) [
    | none ↦ exited_1
    | some op ↦
        print_result
          (calculator_prog_1 calculator_proc t (record { op = op; arg1 = arg1; arg2 = arg2 })
            result).answer
  ]

  -- If the request is decoded and the reply sent, the client and the server together show the result
  -- of the operation that was chosen, whatever was calculated before; for any other character the
  -- client exits.
  pub client_lem :
      (c : ℕ) (arg1 arg2 result : F) (t : Transport)
      → t.decodes ≡ true
      → t.sends ≡ true
      → client c arg1 arg2 t result ≡ (
          if c == b'0'
          then prints (add arg1 arg2)
          else if c == b'1'
          then prints (sub arg1 arg2)
          else if c == b'2'
          then prints (mul arg1 arg2)
          else if c == b'3'
          then prints (div arg1 arg2)
          else exited_1)
  unfolding client chosen calculator_prog_1 calculator_proc_1_svc
  client_lem c arg1 arg2 result t decodes sends = ground (arith, decodes, sends)

  -- A request with an operation that the server does not know, from any other client, is answered
  -- with the result of the request before.
  pub stale_reply :
      (r q : Request F) (t u : Transport) (result : F)
      → t.decodes ≡ true
      → u.decodes ≡ true
      → u.sends ≡ true
      → 3 < q.op
      → (calculator_prog_1 calculator_proc u q
          (calculator_prog_1 calculator_proc t r result).result).answer
        ≡ replied (calculator_proc_1_svc r result)
  unfolding calculator_prog_1 calculator_proc_1_svc
  stale_reply r q t u result dt du su unknown = ground (arith, dt, du, su)

-- The server is offered over udp if its first two calls succeed, and over tcp too if all four do; its
-- exit status is 1 in every case.
pub calc_main_lem :
    (ok : ℕ → Bool) (found : Sems)
    → ((main ok found).0 ≡ 1)
      × ((main ok found).1.registered
          ≡ (if ok 1 && ok 2 then (if ok 3 && ok 4 then 2 else 1) else 0))
calc_main_lem ok found = registration_lem ok found
