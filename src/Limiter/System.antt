-- ===== src/Limiter/System.antt =====
-- pkg/limiter/queue.go, with its callers: requests that queue up, the conductor goroutine of
-- `Start`, workers that give back what they asked for, and the shutdown, in any interleaving of
-- their critical sections.
use spiderpool.Prelude.{ℕ, zero, suc, ◌+◌, ◌≡◌, refl, List, [], ◌∷◌, ◌++◌, Option, Text, arith}
use spiderpool.Limiter.Queue.{
  Queue, Element, polled, ok, queue_up, start, shutdown, resume, checkin, release_ticket,
  new_limiter, or_default,
}
use spiderpool.Limiter.Tickets.{count}

-- `working` are the requests whose channel is closed and that have not released their tickets.
pub record System : Type 0 where
  pub queue : Queue
  pub working : List Element

pub data Step : System → System → Type 0 where
  starts : {s : System} {q : Queue} → start s.queue ≡ ok q → Step s (record s { queue = q })
  arrives :
      {s : System} {q : Queue} (id : ℕ) (tickets : List Text)
      → queue_up s.queue id tickets ≡ ok q
      → Step s (record s { queue = q })
  polls :
      {s : System} {q : Queue} {es : List Element}
      → checkin s.queue ≡ polled q es
      → Step s (record { queue = q; working = es ++ s.working })
  -- `checkin` after its first `Wait`
  wakes :
      {s : System} {q : Queue} {es : List Element}
      → resume s.queue ≡ polled q es
      → Step s (record { queue = q; working = es ++ s.working })
  -- A worker gives back the tickets with which it was called.
  finishes :
      {s : System} (before after : List Element) (id : ℕ) (tickets : List Text)
      → s.working ≡ before ++ record { id = id; wanted_tickets = or_default tickets } ∷ after
      → Step s (record { queue = release_ticket s.queue tickets; working = before ++ after })
  stops : {s : System} → Step s (record s { queue = shutdown s.queue })

abbrev pub initial : Option ℕ → System
initial c = record { queue = new_limiter c; working = [] }

pub data Reach (c : Option ℕ) : System → Type 0 where
  here : Reach c (initial c)
  next : {s t : System} → Reach c s → Step s t → Reach c t

-- How often a ticket is granted to the elements of a list, and to how many of them.
abbrev pub total : Text → List Element → ℕ
total t [] = 0
total t (e ∷ es) = count t e.wanted_tickets + total t es

abbrev pub wants : Text → Element → ℕ
wants t e = elim (count t e.wanted_tickets) [ zero ↦ 0 | suc n ↦ 1 ]

abbrev pub holders : Text → List Element → ℕ
holders t [] = 0
holders t (e ∷ es) = wants t e + holders t es

pub total-append : (t : Text) (xs ys : List Element) → total t (xs ++ ys) ≡ total t xs + total t ys
total-append t [] ys = omega arith
total-append t (x ∷ xs) ys = omega (arith, total-append t xs ys)

pub holders-append :
    (t : Text) (xs ys : List Element) → holders t (xs ++ ys) ≡ holders t xs + holders t ys
holders-append t [] ys = omega arith
holders-append t (x ∷ xs) ys = omega (arith, holders-append t xs ys)

pub holders-eq_zero : (t : Text) (es : List Element) → total t es ≡ 0 → holders t es ≡ 0
holders-eq_zero t [] h = refl
holders-eq_zero t (e ∷ es) h = ground (arith, holders-eq_zero t es)
