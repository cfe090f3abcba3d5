-- ===== src/ProducerConsumer/Alone.antt =====
-- A request that no other thread interrupts. No source code by itself: the programs' functions
-- serv_request are compared with it.
use os_5sem.Prelude.{
  ℕ, ◌+◌, ◌-◌, ◌<◌, ◌≡◌, refl, ◌∙◌, ap, Bool, true, false, List, Option, none, some, not, ◌>>=◌,
  if◌then◌else◌, arith,
}
use os_5sem.Posix.Semop.{Sems, Sembuf, done, semop}
use os_5sem.ProducerConsumer.Slots.{Slots, Arrays, Implements, end_put, end_take}
use os_5sem.ProducerConsumer.Threads.{
  Pc, idle, p_wait, p_in, p_out, c_wait, c_in, c_out, Mem, call, Section, body, Code, behaviour,
}

-- How the calls of the RPC library end: svc_getargs with the argument, svc_sendreply, svc_freeargs.
pub record Transport : Type 0 where
  pub decodes : Bool
  pub arg : ℕ
  pub sends : Bool
  pub frees : Bool

pub data Answer : Type 0 where
  null_reply noproc decode_error system_error : Answer
  silent : Answer  -- the procedure returned 0
  replied : ℕ → Answer

-- What a request leaves, and whether the server exits with it.
pub record Served (S : Type 0) : Type 0 where
  pub mem : Mem S
  pub answer : Answer
  pub exits : Bool

abbrev pub answered : {S : Type 0} → Answer → Mem S → Option (Served S)
answered a m = some (record { mem = m; answer = a; exits = false })

abbrev pub reply : Transport → Option ℕ → Answer
reply t none = silent
reply t (some c) = if t.sends then replied c else system_error

-- What follows a procedure that has run: the reply, and svc_freeargs.
abbrev pub finish : {S : Type 0} → Transport → Option (Option ℕ × Mem S) → Option (Served S)
finish t none = none
finish t (some (r, m)) = some (record { mem = m; answer = reply t r; exits = not t.frees })

-- A procedure that returned 1 with this letter.
abbrev pub with_reply : {S : Type 0} → Option (ℕ × Mem S) → Option (Option ℕ × Mem S)
with_reply none = none
with_reply (some (c, m)) = some (some c, m)

-- The procedures of a program that has one for its producers and one for its consumers.
pub data Proc : Type 0 where
  nullproc producer consumer other : Proc

abbrev pub letter_of : Pc → ℕ
letter_of (p_out c) = c
letter_of (c_out c) = c
letter_of _ = 0

module _ {S : Type 0} (code : Code S) where
  -- The three steps of a request, and its letter; `none` if it waits or leaves the buffer.
  unfoldable pub alone : Mem S → Pc → Option (ℕ × Mem S)
  alone m c = do
    (m1, c1) ← code m c
    (m2, c2) ← code m1 c1
    (m3, c3) ← code m2 c2
    some (letter_of c2, m3)

call-done :
    {S : Type 0} (ops : List Sembuf) (m : Mem S) (ok : Pc) (t : Sems)
    → semop ops m.sems ≡ done t
    → call ops m ok ≡ some (record m { sems = t }, ok)
call-done ops m ok t e = rw (e, call) refl

module _ {S : Type 0} {size : ℕ} {p : Arrays} {view : Slots → Sems} (put take : Section S)
    (law : Implements size p view) (code : Code S)
    (same : (m : Mem S) (c : Pc) → code m c ≡ behaviour p put take m c) where
  -- With a free place and the lock open, a producer's request runs through, and leaves one free place
  -- less, a filled one more, and the lock open.
  pub alone-put :
      (m : Mem S) (l : Slots) (t : S) (c : ℕ)
      → m.sems ≡ view l
      → l.held ≡ false
      → 0 < l.free
      → put m.store ≡ some (t, c)
      → alone code m p_wait
        ≡ some (
          c,
          record {
            sems = view (record { free = l.free - 1; full = l.full + 1; held = false });
            store = t;
          },
        )
  unfolding alone
  alone-put m l t c sems unlocked room ran =
      let l1 : Slots = record l { free = l.free - 1; held = true } in
      let e1 : code m p_wait ≡ some (record m { sems = view l1 }, p_in) =
        same m p_wait
        ∙ call-done p.start_prod m p_in (view l1)
            (ap (semop p.start_prod) sems ∙ law.starts_put l ∙ ground arith) in
      let e2 : code (record m { sems = view l1 }) p_in
          ≡ some (record { sems = view l1; store = t }, p_out c) =
        same (record m { sems = view l1 }) p_in ∙ rw (ran, body) refl in
      let e3 =
        same (record { sems = view l1; store = t }) (p_out c)
        ∙ call-done p.stop_prod (record { sems = view l1; store = t }) idle (view (end_put l1))
            (law.stops_put l1 refl) in
      rw (e1, e2, e3) refl

  -- Likewise a consumer's, with a filled place.
  pub alone-take :
      (m : Mem S) (l : Slots) (t : S) (c : ℕ)
      → m.sems ≡ view l
      → l.held ≡ false
      → 0 < l.full
      → take m.store ≡ some (t, c)
      → alone code m c_wait
        ≡ some (
          c,
          record {
            sems = view (record { free = l.free + 1; full = l.full - 1; held = false });
            store = t;
          },
        )
  unfolding alone
  alone-take m l t c sems unlocked item ran =
      let l1 : Slots = record l { full = l.full - 1; held = true } in
      let e1 : code m c_wait ≡ some (record m { sems = view l1 }, c_in) =
        same m c_wait
        ∙ call-done p.start_cons m c_in (view l1)
            (ap (semop p.start_cons) sems ∙ law.starts_take l ∙ ground arith) in
      let e2 : code (record m { sems = view l1 }) c_in
          ≡ some (record { sems = view l1; store = t }, c_out c) =
        same (record m { sems = view l1 }) c_in ∙ rw (ran, body) refl in
      let e3 =
        same (record { sems = view l1; store = t }) (c_out c)
        ∙ call-done p.stop_cons (record { sems = view l1; store = t }) idle (view (end_take l1))
            (law.stops_take l1 refl) in
      rw (e1, e2, e3) refl
