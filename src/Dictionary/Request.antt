-- ===== src/Dictionary/Request.antt =====
-- os_lab_rpc/threads_rpc/dict_svc.c: what the thread of a request does, with the wrappers of
-- dict_server.c that it calls.
use os_5sem.Prelude.{
  ℕ, ◌+◌, ◌≤◌, ◌<◌, ◌≡◌, refl, Bool, true, false, Option, none, some, not, if◌then◌else◌, length,
  arith, inl, inr, Bool-cases, ltb, ◌&&◌, ◌-◌,
}
use os_5sem.Dictionary.Table.{Word, Dict, dict_siz, max_word, initw, insertw, deletew, lookupw}
use os_5sem.Dictionary.Counting.{hit}
use os_5sem.Dictionary.Contract.{
  IsValid, IsMovable, kept, initw_lem, insertw_lem, deletew_lem, lookupw_lem,
}

-- How the calls of the RPC library end: svc_getargs with the argument that it finds, svc_sendreply,
-- and svc_freeargs.
pub record Transport : Type 0 where
  pub decodes : Bool
  pub word : Word
  pub sends : Bool
  pub frees : Bool

pub data Answer : Type 0 where
  null_reply noproc decode_error system_error : Answer
  replied : ℕ → Answer

-- The numbers of the procedures, as dict.h names them.
pub data Proc : Type 0 where
  nullproc initw_1 insertw_1 deletew_1 lookupw_1 other : Proc

abbrev pub looked_up : Dict → Option ℕ → Option (ℕ × Dict)
looked_up d none = none
looked_up d (some r) = some (r, d)

-- The procedure that `local` stands for.
abbrev pub local_svc : Proc → Word → Dict → Option (ℕ × Dict)
local_svc initw_1 w d = some (initw d)
local_svc insertw_1 w d = insertw w d
local_svc deletew_1 w d = deletew w d
local_svc lookupw_1 w d = looked_up d (lookupw w d)
local_svc _ w d = none

-- The table, the answer, and whether the server exits, as it does where the argument cannot be freed.
pub record Served : Type 0 where
  pub dict : Dict
  pub answer : Answer
  pub exits : Bool

abbrev pub run_local : Proc → Transport → Dict → Option Served
run_local proc t d =
    if not t.decodes
    then some (record { dict = d; answer = decode_error; exits = false })
    else elim (local_svc proc t.word d) [
      | none ↦ none
      | some (r, e) ↦ some (record {
        dict = e;
        answer = if t.sends then replied r else system_error;
        exits = not t.frees;
      })
    ]

-- `none` where a procedure is undefined.
unfoldable pub serv_request : Proc → Transport → Dict → Option Served
serv_request nullproc t d = some (record { dict = d; answer = null_reply; exits = false })
serv_request other t d = some (record { dict = d; answer = noproc; exits = false })
serv_request proc t d = run_local proc t d

-- How often a word is kept after a procedure.
abbrev pub kept_after : Proc → Word → Dict → Word → ℕ
kept_after initw_1 w d x = 0
kept_after insertw_1 w d x = kept d x + hit x w
kept_after deletew_1 w d x = kept d x - (if ltb 0 (kept d w) then hit x w else 0)
kept_after _ w d x = kept d x

-- What is left of a request that comes to its procedure.
run_local_lem :
    (proc : Proc) (t : Transport) (d e : Dict) (r : ℕ)
    → local_svc proc t.word d ≡ some (r, e)
    → IsValid d
    → IsValid e
    → ((x : Word) → kept e x ≡ kept_after proc t.word d x)
    → (u : Served) × (run_local proc t d ≡ some u)
      × IsValid u.dict
      × (u.answer
          ≡ (if t.decodes then (if t.sends then replied r else system_error) else decode_error))
      × ((x : Word) → kept u.dict x ≡ (if t.decodes then kept_after proc t.word d x else kept d x))
      × (u.exits ≡ (t.decodes && not t.frees))
run_local_lem proc t d e r ran v w counts = elim (Bool-cases t.decodes) [
  | inl reads ↦ (
    record { dict = e; answer = if t.sends then replied r else system_error; exits = not t.frees },
    ground (arith, reads, ran),
    w,
    ground (arith, reads),
    λ x. rw reads (counts x),
    ground (arith, reads),
  )
  | inr fails ↦ (
    record { dict = d; answer = decode_error; exits = false },
    ground (arith, fails),
    v,
    ground (arith, fails),
    λ x. rw fails refl,
    ground (arith, fails),
  )
]

-- The reply of a procedure to a word, by how often the dictionary keeps the word.
abbrev pub reply_to : Proc → Word → Dict → Answer
reply_to nullproc w d = null_reply
reply_to other w d = noproc
reply_to initw_1 w d = replied 1
reply_to insertw_1 w d = replied (d.nwords + 1)
reply_to _ w d = replied (if ltb 0 (kept d w) then 1 else 0)

abbrev pub answer_to : Proc → Transport → Dict → Answer
answer_to nullproc t d = null_reply
answer_to other t d = noproc
answer_to proc t d =
    if t.decodes then (if t.sends then reply_to proc t.word d else system_error) else decode_error

-- Whether a request comes to a procedure of dict_server.c.
abbrev pub is_local : Proc → Bool
is_local nullproc = false
is_local other = false
is_local _ = true

-- What the server relies on.
abbrev pub IsAllowed : Proc → Word → Dict → Type 0
IsAllowed insertw_1 w d = (d.nwords < dict_siz) × (length w ≤ max_word)
IsAllowed deletew_1 w d = IsMovable w d
IsAllowed _ w d = Unit

-- Every request to a well-formed table is served, if an insertion finds a free row and a word of at
-- most 50 characters, and a deletion a word that does not stand in the last row alone. The answer is
-- that of the procedure that was asked for, unless the argument cannot be decoded or the reply cannot
-- be sent. If the argument is decoded, every word is kept as often as the procedure says, whether the
-- reply is sent or not: never after an initialisation, once more or less for the word of an insertion
-- or of a deletion; otherwise as often as before. The table stays well formed, and the server goes on
-- unless the argument of one of the four procedures was decoded and cannot be freed.
pub serv_request_lem :
    (proc : Proc) (t : Transport) (d : Dict)
    → IsValid d
    → IsAllowed proc t.word d
    → (u : Served) × (serv_request proc t d ≡ some u)
      × IsValid u.dict
      × (u.answer ≡ answer_to proc t d)
      × ((x : Word) → kept u.dict x ≡ (if t.decodes then kept_after proc t.word d x else kept d x))
      × (u.exits ≡ (is_local proc && (t.decodes && not t.frees)))
unfolding serv_request
serv_request_lem nullproc t d v ok = (
  record { dict = d; answer = null_reply; exits = false },
  refl,
  v,
  refl,
  λ x. ground arith,
  refl,
)
serv_request_lem other t d v ok =
    (record { dict = d; answer = noproc; exits = false }, refl, v, refl, λ x. ground arith, refl)
serv_request_lem initw_1 t d v ok =
    let (one, w, none_kept) = initw_lem d v in
    run_local_lem initw_1 t d (initw d).1 1 (ground (arith, one)) v w none_kept
serv_request_lem insertw_1 t d v (room, small) =
    let (e, ran, w, counts) = insertw_lem t.word d v room small in
    run_local_lem insertw_1 t d e (d.nwords + 1) ran v w counts
serv_request_lem deletew_1 t d v movable =
    let (e, ran, w, counts) = deletew_lem t.word d v movable in
    run_local_lem deletew_1 t d e (if ltb 0 (kept d t.word) then 1 else 0) ran v w
      (λ x. omega (arith, counts x))
serv_request_lem lookupw_1 t d v ok =
    run_local_lem lookupw_1 t d d (if ltb 0 (kept d t.word) then 1 else 0)
      (rw (lookupw_lem t.word d v) refl) v v (λ x. refl)
