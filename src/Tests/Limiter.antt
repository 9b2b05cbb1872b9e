-- ===== src/Tests/Limiter.antt =====
-- The limiter's theorems on a queue where one request works and another waits for its ticket.
use spiderpool.Prelude.{
  ℕ, ◌≡◌, ◌≤◌, ◌+◌, refl, false, List, [], ◌∷◌, some, none, Text, codes, lookup, insert, text_eq,
  length, All,
}
use spiderpool.Limiter.Queue.{
  ℤ, Queue, Element, pos, Granted, start, queue_up, resume, sweep, check_available_ticket,
  grant_tickets, add_ticket, new_limiter, polled,
}
use spiderpool.Limiter.System.{System, Reach, here, next, starts, arrives, wakes, holders}
use spiderpool.Limiter.Safety.{mutual_exclusion, resume-kept_blocked}

abbrev pool_a : Text
pool_a = codes "pool-a"

abbrev request : ℕ → Element
request i = record { id = i; wanted_tickets = pool_a ∷ [] }

abbrev granted : Granted
granted = (pool_a, pos 1) ∷ []

abbrev queue_of : List Element → Granted → Queue
queue_of es g = record {
  shutting_down = false;
  max_queue_size = 2;
  elements = es;
  granted_tickets = g;
}

-- One request works, another waits.
abbrev busy : System
busy = record { queue = queue_of (request 2 ∷ []) granted; working = request 1 ∷ [] }

busy-Reach : Reach (some 2) busy
unfolding start queue_up resume sweep check_available_ticket grant_tickets add_ticket new_limiter
    lookup insert text_eq
busy-Reach =
    next
      (next
        (next (next here (starts {q = queue_of [] []} refl))
          (arrives {q = queue_of (request 1 ∷ []) []} 1 (pool_a ∷ []) refl))
        (arrives {q = queue_of (request 1 ∷ request 2 ∷ []) []} 2 (pool_a ∷ []) refl))
      (wakes {q = queue_of (request 2 ∷ []) granted} {es = request 1 ∷ []} refl)

mutual_exclusion_example : holders pool_a busy.working ≤ 1
mutual_exclusion_example = mutual_exclusion busy-Reach pool_a

busy_resume : resume busy.queue ≡ polled busy.queue []
unfolding resume sweep check_available_ticket lookup text_eq
busy_resume = refl

resume-kept_blocked_example :
    All (λ (e : Element). check_available_ticket granted e.wanted_tickets ≡ false) (request 2 ∷ [])
    × (length busy.queue.elements + 0 ≡ length busy.queue.elements)
resume-kept_blocked_example = resume-kept_blocked busy.queue [] busy-Reach busy_resume

nobody : lookup {V = ℤ} pool_a [] ≡ none
unfolding lookup
nobody = refl
