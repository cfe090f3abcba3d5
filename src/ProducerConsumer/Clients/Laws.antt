-- ===== src/ProducerConsumer/Clients/Laws.antt =====
-- What a client prints at a server that keeps its promises. No source code by itself.
use os_5sem.Prelude.{
  ℕ, zero, suc, ◌+◌, ◌≤◌, ◌<◌, ◌≡◌, refl, ap, ◌∙◌, true, false, List, [], ◌∷◌, Option, none, some,
  if◌then◌else◌, length, arith,
}
use mathlib.Core.Path.{subst}
use native.Mathlib.Nat.{add-zero}
use os_5sem.ProducerConsumer.Threads.{Mem, letter}
use os_5sem.ProducerConsumer.Alone.{Transport, Served, replied, system_error}
use os_5sem.ProducerConsumer.Clients.{
  up, Service, remote, received, round_until, round_past, add_lines, Line, letter_line, old_line,
  error_line, calls, exits, Ended, until_error, past_errors,
}

-- Its request is decoded, and its arguments can be freed.
abbrev pub IsTreated : Transport → Type 0
IsTreated t = (t.decodes ≡ true) × (t.frees ≡ true)

abbrev pub AllAnswered : List Transport → Type 0
AllAnswered [] = Unit {0}
AllAnswered (t ∷ ts) = IsTreated t × (t.sends ≡ true) × AllAnswered ts

abbrev pub served : {S : Type 0} → Transport → Mem S → ℕ → Option (Served S)
served t m c =
    some (record { mem = m; answer = if t.sends then replied c else system_error; exits = false })

-- `At a b m`: `a` letters were put and `b` of them taken; `limit b` is how many letters can then be
-- put in all.
pub record IsServer {S : Type 0} (put take : Service S) (limit : ℕ → ℕ)
    (At : ℕ → ℕ → Mem S → Type 0) : Type 0 where
  pub puts :
      (t : Transport) (m : Mem S) (a b : ℕ)
      → IsTreated t
      → At a b m
      → a < limit b
      → (m' : Mem S) × (put t m ≡ served t m' (letter a)) × At (suc a) b m'
  pub takes :
      (t : Transport) (m : Mem S) (a b : ℕ)
      → IsTreated t
      → At a b m
      → b < a
      → (m' : Mem S) × (take t m ≡ served t m' (letter b)) × At a (suc b) m'

-- The lines of the letters from the number `a` on.
unfoldable pub letter_lines : ℕ → ℕ → List Line
letter_lines a zero = []
letter_lines a (suc k) = letter_line (letter a) ∷ letter_lines (suc a) k

abbrev pub printed : {S : Type 0} → List Line → Mem S → Ended S
printed ls m = record { lines = ls; server = up m; how = calls }

remote-served :
    {S : Type 0} (f : Service S) (t : Transport) (m m' : Mem S) (c : ℕ)
    → t.sends ≡ true
    → f t m ≡ served t m' c
    → remote f t (up m) ≡ some (some c, up m')
remote-served f t m m' c sends e = ap received e ∙ ground (arith, sends)

remote-lost :
    {S : Type 0} (f : Service S) (t : Transport) (m m' : Mem S) (c : ℕ)
    → t.sends ≡ false
    → f t m ≡ served t m' c
    → remote f t (up m) ≡ some (none, up m')
remote-lost f t m m' c lost e = ap received e ∙ ground (arith, lost)

module _ {S : Type 0} {put take : Service S} {limit : ℕ → ℕ} {At : ℕ → ℕ → Mem S → Type 0}
    (law : IsServer put take limit At) where
  pub until_error-puts :
      (ts : List Transport) (m : Mem S) (a b : ℕ)
      → AllAnswered ts
      → At a b m
      → a + length ts ≤ limit b
      → (m' : Mem S) × (until_error put ts (up m) ≡ printed (letter_lines a (length ts)) m')
        × At (a + length ts) b m'
  unfolding until_error letter_lines
  until_error-puts [] m a b all at room = (m, refl, rw (add-zero a) at)
  until_error-puts (t ∷ ts) m a b (treated, sends, all) at room =
      let (m1, e, at1) = law.puts t m a b treated at (omega arith) in
      let (m2, e2, at2) = until_error-puts ts m1 (suc a) b all at1 (omega arith) in
      (
        m2,
        ap (round_until (until_error put ts) (up m)) (remote-served put t m m1 (letter a) sends e)
            ∙ ap (add_lines (letter_line (letter a) ∷ [])) e2,
        subst (λ n. At n b m2) (omega arith) at2,
      )

  pub until_error-takes :
      (ts : List Transport) (m : Mem S) (a b : ℕ)
      → AllAnswered ts
      → At a b m
      → b + length ts ≤ a
      → (m' : Mem S) × (until_error take ts (up m) ≡ printed (letter_lines b (length ts)) m')
        × At a (b + length ts) m'
  unfolding until_error letter_lines
  until_error-takes [] m a b all at room = (m, refl, rw (add-zero b) at)
  until_error-takes (t ∷ ts) m a b (treated, sends, all) at room =
      let (m1, e, at1) = law.takes t m a b treated at (omega arith) in
      let (m2, e2, at2) = until_error-takes ts m1 a (suc b) all at1 (omega arith) in
      (
        m2,
        ap (round_until (until_error take ts) (up m)) (remote-served take t m m1 (letter b) sends e)
            ∙ ap (add_lines (letter_line (letter b) ∷ [])) e2,
        subst (λ n. At a n m2) (omega arith) at2,
      )

  -- A letter that was put stays so if the reply is lost: the client stops.
  pub until_error-lost :
      (t : Transport) (ts : List Transport) (m : Mem S) (a b : ℕ)
      → IsTreated t
      → t.sends ≡ false
      → At a b m
      → a < limit b
      → (m' : Mem S) × (until_error put (t ∷ ts) (up m)
          ≡ record { lines = error_line ∷ []; server = up m'; how = exits 0 })
        × At (suc a) b m'
  unfolding until_error
  until_error-lost t ts m a b treated lost at room =
      let (m1, e, at1) = law.puts t m a b treated at room in
      (
        m1,
        ap (round_until (until_error put ts) (up m)) (remote-lost put t m m1 (letter a) lost e),
        at1,
      )

  -- The loop that goes on prints the letter before once more.
  pub past_errors-lost :
      (t : Transport) (ts : List Transport) (last : Option ℕ) (m : Mem S) (a b : ℕ)
      → IsTreated t
      → t.sends ≡ false
      → At a b m
      → a < limit b
      → (m' : Mem S) × (past_errors put last (t ∷ ts) (up m)
          ≡ add_lines (error_line ∷ old_line last ∷ []) (past_errors put last ts (up m')))
        × At (suc a) b m'
  unfolding past_errors
  past_errors-lost t ts last m a b treated lost at room =
      let (m1, e, at1) = law.puts t m a b treated at room in
      (
        m1,
        ap (round_past (λ l. past_errors put l ts) last (up m))
            (remote-lost put t m m1 (letter a) lost e),
        at1,
      )

  pub past_errors-put :
      (t : Transport) (ts : List Transport) (last : Option ℕ) (m : Mem S) (a b : ℕ)
      → IsTreated t
      → t.sends ≡ true
      → At a b m
      → a < limit b
      → (m' : Mem S) × (past_errors put last (t ∷ ts) (up m)
          ≡ add_lines (letter_line (letter a) ∷ []) (past_errors put (some (letter a)) ts (up m')))
        × At (suc a) b m'
  unfolding past_errors
  past_errors-put t ts last m a b treated sends at room =
      let (m1, e, at1) = law.puts t m a b treated at room in
      (
        m1,
        ap (round_past (λ l. past_errors put l ts) last (up m))
            (remote-served put t m m1 (letter a) sends e),
        at1,
      )

  pub past_errors-puts :
      (ts : List Transport) (last : Option ℕ) (m : Mem S) (a b : ℕ)
      → AllAnswered ts
      → At a b m
      → a + length ts ≤ limit b
      → (m' : Mem S) × (past_errors put last ts (up m) ≡ printed (letter_lines a (length ts)) m')
        × At (a + length ts) b m'
  unfolding letter_lines
  past_errors-puts [] last m a b all at room = (m, unfold past_errors in refl, rw (add-zero a) at)
  past_errors-puts (t ∷ ts) last m a b (treated, sends, all) at room =
      let (m1, e, at1) = past_errors-put t ts last m a b treated sends at (omega arith) in
      let (m2, e2, at2) =
        past_errors-puts ts (some (letter a)) m1 (suc a) b all at1 (omega arith) in
      (
        m2,
        e ∙ ap (add_lines (letter_line (letter a) ∷ [])) e2,
        subst (λ n. At n b m2) (omega arith) at2,
      )
