-- ===== src/Limiter/Tickets.antt =====
-- pkg/limiter/queue.go: what the counts of `grantedTickets` mean.
use spiderpool.Prelude.{
  ◌↔◌, ℕ, zero, suc, ◌+◌, ◌<◌, ◌≡◌, refl, ap, true, List, [], ◌∷◌, Option, none, some, Text,
  text_eq, text_eq_iff, text_eq_refl, lookup, insert, lookup-insert, lookup-remove, arith,
  if◌then◌else◌,
}
use spiderpool.Limiter.Queue.{
  pos, Granted, Element, add_ticket, drop_ticket, grant_tickets, release_tickets,
  check_available_ticket, is_zero, held, increment, decrement,
}
use spiderpool.Limiter.Queue

-- How often a ticket stands in a request.
abbrev pub count : Text → List Text → ℕ
count t [] = 0
count t (u ∷ us) = if text_eq u t then suc (count t us) else count t us

-- The entry of `grantedTickets` for a count: none at 0.
abbrev pub entry : ℕ → Option Queue.ℤ
entry zero = none
entry (suc n) = some (pos (suc n))

-- The map holds exactly the counts `c`.
abbrev pub Holds : Granted → (Text → ℕ) → Type 0
Holds g c = (t : Text) → lookup t g ≡ entry (c t)

add_ticket_lem :
    (t : Text) (g : Granted) (c : Text → ℕ)
    → Holds g c
    → Holds (add_ticket t g) (λ u. if text_eq t u then suc (c u) else c u)
unfolding add_ticket
add_ticket_lem t g c h u = ground (
  arith,
  h t,
  h u,
  text_eq_iff t u,
  lookup-insert t u (increment (held t g)) g,
  ap c {x = t} {y = u},
)

drop_ticket_lem :
    (t : Text) (g : Granted) (c : Text → ℕ)
    → Holds g (λ u. if text_eq t u then suc (c u) else c u)
    → Holds (drop_ticket t g) c
unfolding drop_ticket
drop_ticket_lem t g c h u = ground (
  arith,
  h t,
  h u,
  text_eq_refl t,
  text_eq_iff t u,
  lookup-insert t t (decrement (held t g)) g,
  lookup-insert t u (decrement (held t g)) g,
  lookup-remove t u (insert t (decrement (held t g)) g),
)

pub grant_tickets_lem :
    (ts : List Text) (g : Granted) (c : Text → ℕ)
    → Holds g c
    → Holds (grant_tickets ts g) (λ u. count u ts + c u)
unfolding grant_tickets
grant_tickets_lem [] g c h u = rw (h u) (ap entry (omega arith))
grant_tickets_lem (t ∷ ts) g c h u =
    rw (grant_tickets_lem ts (add_ticket t g) _ (add_ticket_lem t g c h) u)
      (ap entry (ground arith))

-- Giving back what was granted restores every count.
pub release_tickets_lem :
    (ts : List Text) (g : Granted) (c : Text → ℕ)
    → Holds g (λ u. count u ts + c u)
    → Holds (release_tickets ts g) c
unfolding release_tickets
release_tickets_lem [] g c h u = rw (h u) (ap entry (omega arith))
release_tickets_lem (t ∷ ts) g c h u =
    release_tickets_lem ts (drop_ticket t g) c
      (drop_ticket_lem t g (λ v. count v ts + c v) (λ v. rw (h v) (ap entry (ground arith)))) u

-- A request is available exactly if none of its tickets is counted.
pub check_available_ticket_iff :
    (ts : List Text) (g : Granted) (c : Text → ℕ)
    → Holds g c
    → (check_available_ticket g ts ≡ true) ↔ ((t : Text) → 0 < count t ts → c t ≡ 0)
unfolding check_available_ticket
check_available_ticket_iff [] g c h = (λ _ t p. absurd (omega arith), λ _. refl)
check_available_ticket_iff (t ∷ ts) g c h = (
  λ e u p. ground (
    arith,
    h t,
    text_eq_iff t u,
    ap c {x = t} {y = u},
    λ (q : check_available_ticket g ts ≡ true). (check_available_ticket_iff ts g c h).0 q u,
  ),
  λ k. ground (
    arith,
    h t,
    k t,
    text_eq_refl t,
    (check_available_ticket_iff ts g c h).1 (λ u p. k u (ground arith)),
  ),
)
