-- ===== src/Limiter/Queue.antt =====
-- pkg/limiter/queue.go and config.go: the queue, its critical sections and the conductor's sweep.
-- Each function is one critical section under `cond.L`; a `cond.Wait` ends a critical section.
use spiderpool.Prelude.{
  ℕ, zero, suc, Bool, true, false, not, ◌&&◌, List, [], ◌∷◌, ◌++◌, Option, none, some, Text, codes,
  lookup, insert, remove, length, leb, ◌==◌, if◌then◌else◌, is_some,
}

-- Go's `int`, for the counts of `grantedTickets`; `negsuc n` is -(n + 1).
pub data ℤ : Type 0 where
  pos : ℕ → ℤ
  negsuc : ℕ → ℤ

abbrev pub increment : ℤ → ℤ
increment (pos n) = pos (suc n)
increment (negsuc zero) = pos 0
increment (negsuc (suc n)) = negsuc n

abbrev pub decrement : ℤ → ℤ
decrement (pos zero) = negsuc 0
decrement (pos (suc n)) = pos n
decrement (negsuc n) = negsuc (suc n)

abbrev pub is_zero : ℤ → Bool
is_zero (pos zero) = true
is_zero _ = false

abbrev pub Granted : Type 0
Granted = List (Text × ℤ)

-- `notifyCheckin` is a channel of its own for each element: `id` names it.
pub record Element : Type 0 where
  pub id : ℕ
  pub wanted_tickets : List Text

pub record Queue : Type 0 where
  pub shutting_down : Bool
  pub max_queue_size : ℕ
  pub elements : List Element
  pub granted_tickets : Granted

pub data LimiterError : Type 0 where
  start_repeatedly shutdown_queue full_queue : LimiterError

pub data Attempt : Type 0 where
  ok : Queue → Attempt
  err : LimiterError → Attempt

-- `setDefaultsForLimiterConfig`
abbrev pub default_max_queue_size : Option ℕ → ℕ
default_max_queue_size none = 1000
default_max_queue_size (some n) = n

unfoldable pub new_limiter : Option ℕ → Queue
new_limiter c = record {
  shutting_down = true;
  max_queue_size = default_max_queue_size c;
  elements = [];
  granted_tickets = [];
}

abbrev pub default_ticket : Text
default_ticket = codes "not to use this ticket"

-- A call with no ticket asks for the default one.
abbrev pub or_default : List Text → List Text
or_default [] = default_ticket ∷ []
or_default (t ∷ ts) = t ∷ ts

-- `id` is the new channel.
unfoldable pub queue_up : Queue → ℕ → List Text → Attempt
queue_up q id tickets =
    if q.shutting_down
    then err shutdown_queue
    else if leb q.max_queue_size (length q.elements)
    then err full_queue
    else ok (record q {
      elements = q.elements ++ record { id = id; wanted_tickets = or_default tickets } ∷ [];
    })

-- `q.grantedTickets[t]`, with Go's zero value where the key is missing
abbrev pub held : Text → Granted → ℤ
held t g = elim (lookup t g) [ none ↦ pos 0 | some v ↦ v ]

unfoldable pub add_ticket : Text → Granted → Granted
unfolding lookup insert
add_ticket t g = insert t (increment (held t g)) g

unfoldable pub drop_ticket : Text → Granted → Granted
unfolding lookup insert remove
drop_ticket t g =
    let g' = insert t (decrement (held t g)) g in if is_zero (held t g') then remove t g' else g'

unfoldable pub release_tickets : List Text → Granted → Granted
release_tickets [] g = g
release_tickets (t ∷ ts) g = release_tickets ts (drop_ticket t g)

unfoldable pub release_ticket : Queue → List Text → Queue
unfolding release_tickets
release_ticket q tickets = record q {
  granted_tickets = release_tickets (or_default tickets) q.granted_tickets;
}

unfoldable pub start : Queue → Attempt
start q =
    if not q.shutting_down then err start_repeatedly else ok (record q { shutting_down = false })

unfoldable pub check_available_ticket : Granted → List Text → Bool
check_available_ticket g [] = true
check_available_ticket g (t ∷ ts) =
    if is_some (lookup t g) then false else check_available_ticket g ts

-- The loop of `grantTicket`; the close of the channel is recorded by the sweep.
unfoldable pub grant_tickets : List Text → Granted → Granted
grant_tickets [] g = g
grant_tickets (t ∷ ts) g = grant_tickets ts (add_ticket t g)

-- What the loop of `checkin` leaves: the elements that still wait, the counts, and the elements
-- whose channel it closed, in order.
pub record Sweep : Type 0 where
  pub kept : List Element
  pub granted : Granted
  pub notified : List Element

unfoldable pub sweep : Granted → List Element → Sweep
sweep g [] = record { kept = []; granted = g; notified = [] }
sweep g (e ∷ es) = elim (check_available_ticket g e.wanted_tickets) [
  | true ↦
      let s = sweep (grant_tickets e.wanted_tickets g) es in record s { notified = e ∷ s.notified }
  | false ↦ let s = sweep g es in record s { kept = e ∷ s.kept }
]

-- `parked` is the first `Wait`, after which `resume` runs on the state found then; `polled` is the
-- second, after which `checkin` returns false; `returned` is a return with no sweep.
pub data Checkin : Type 0 where
  parked : Checkin
  returned : Bool → Checkin
  polled : Queue → List Element → Checkin

unfoldable pub resume : Queue → Checkin
resume q =
    if length q.elements == 0
    then returned q.shutting_down
    else let s = sweep q.granted_tickets q.elements in
      polled (record q { elements = s.kept; granted_tickets = s.granted }) s.notified

unfoldable pub checkin : Queue → Checkin
unfolding resume
checkin q = if length q.elements == 0 && not q.shutting_down then parked else resume q

unfoldable pub shutdown : Queue → Queue
shutdown q = record q { shutting_down = true }

-- The test on which `gracefulShutdown` stops waiting.
unfoldable pub is_all_tickets_retrieved : Queue → Bool
is_all_tickets_retrieved q = length q.granted_tickets == 0

-- `waitAllTicketsRetrieved` either returns at once or waits.
unfoldable pub waits_for_tickets : Queue → Bool
waits_for_tickets q = not (length q.granted_tickets == 0)

unfoldable pub started : Queue → Bool
started q = not q.shutting_down
