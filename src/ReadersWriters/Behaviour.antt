-- ===== src/ReadersWriters/Behaviour.antt =====
-- The step function that the four programs share, up to their constants: it makes exactly the moves
-- of `Move`. Each program's own functions are compared with it.
use os_5sem.Prelude.{
  ◌+◌, ◌%◌, ◌≡◌, refl, inl, inr, Bool, true, false, none, some, ◌==◌, if◌then◌else◌, arith,
  Bool-cases,
}
use os_5sem.ReadersWriters.Program.{
  Pc, r_loop, r_wait, r_in, r_out, w_loop, w_wait, w_in, w_wrap, w_load, w_store, w_out, quit,
  failed, failed_reading, failed_writing, Program,
}
use os_5sem.ReadersWriters.Process.{
  Mem, Move, read_again, read_quit, read_enter, read_fail, look, read_leave, leave_fail,
  write_again, write_quit, write_enter, write_fail, at_z, before_z, wrap, load, store, write_leave,
  done_fail, call, moved, moved_call, Stuck, Code, Conforms,
}

module _ (p : Program) where
  abbrev pub behaviour : Code
  behaviour flag i m r_loop = some (m, if flag then r_wait else quit)
  behaviour flag i m r_wait = call i p.start_read m r_in failed
  behaviour flag i m r_in = some (m, r_out m.buf)
  behaviour flag i m (r_out c) = call i p.stop_read m r_loop failed_reading
  behaviour flag i m w_loop = some (m, if flag then w_wait else quit)
  behaviour flag i m w_wait = call i p.start_write m w_in failed
  behaviour flag i m w_in = some (m, if m.buf == 122 then w_wrap else w_load)
  behaviour flag i m w_wrap = some (record m { buf = p.wrapped }, p.after_wrap)
  behaviour flag i m w_load = some (m, w_store m.buf)
  behaviour flag i m (w_store c) = some (record m { buf = (c + 1) % 256 }, w_out)
  behaviour flag i m w_out = call i p.stop_write m w_loop failed_writing
  behaviour flag i m _ = none

  behaviour-moves :
      (flag interrupted : Bool) (m : Mem) (c : Pc) {m' : Mem} {c' : Pc}
      → behaviour flag interrupted m c ≡ some (m', c')
      → Move p flag m c m' c'
  behaviour-moves true i m r_loop e = moved (m, r_wait) _ (read_again refl) e
  behaviour-moves false i m r_loop e = moved (m, quit) _ (read_quit refl) e
  behaviour-moves flag i m r_wait e =
      moved_call i p.start_read r_in failed _ (λ s q. read_enter q) read_fail e
  behaviour-moves flag i m r_in e = moved (m, r_out m.buf) _ look e
  behaviour-moves flag i m (r_out c) e =
      moved_call i p.stop_read r_loop failed_reading _ (λ s q. read_leave q) leave_fail e
  behaviour-moves true i m w_loop e = moved (m, w_wait) _ (write_again refl) e
  behaviour-moves false i m w_loop e = moved (m, quit) _ (write_quit refl) e
  behaviour-moves flag i m w_wait e =
      moved_call i p.start_write w_in failed _ (λ s q. write_enter q) write_fail e
  behaviour-moves flag i m w_in e = elim (Bool-cases (m.buf == 122)) [
    | inl z ↦ moved (m, w_wrap) _ (at_z (ground arith)) (rw z at e)
    | inr other ↦ moved (m, w_load) _ (before_z (ground arith)) (rw other at e)
  ]
  behaviour-moves flag i m w_wrap e = moved (record m { buf = p.wrapped }, p.after_wrap) _ wrap e
  behaviour-moves flag i m w_load e = moved (m, w_store m.buf) _ load e
  behaviour-moves flag i m (w_store c) e = moved (record m { buf = (c + 1) % 256 }, w_out) _ store e
  behaviour-moves flag i m w_out e =
      moved_call i p.stop_write w_loop failed_writing _ (λ s q. write_leave q) done_fail e
  behaviour-moves flag i m quit e = cc
  behaviour-moves flag i m failed e = cc
  behaviour-moves flag i m failed_reading e = cc
  behaviour-moves flag i m failed_writing e = cc

  behaviour-waits :
      (flag interrupted : Bool) (m : Mem) (c : Pc)
      → behaviour flag interrupted m c ≡ none
      → Stuck p m c
  behaviour-waits flag i m r_wait e = ground arith
  behaviour-waits flag i m (r_out c) e = ground arith
  behaviour-waits flag i m w_wait e = ground arith
  behaviour-waits flag i m w_out e = ground arith
  behaviour-waits flag i m quit e = tt
  behaviour-waits flag i m failed e = tt
  behaviour-waits flag i m failed_reading e = tt
  behaviour-waits flag i m failed_writing e = tt
  behaviour-waits flag i m _ e = cc

  -- A step function that computes the same results as the shared one.
  pub behaviour-Conforms :
      (code : Code)
      → ((flag i : Bool) (m : Mem) (c : Pc) → code flag i m c ≡ behaviour flag i m c)
      → Conforms p code
  behaviour-Conforms code same = record {
    moves = λ flag i m c e. behaviour-moves flag i m c (rw (same flag i m c) at e);
    waits = λ flag i m c e. behaviour-waits flag i m c (rw (same flag i m c) at e);
  }
