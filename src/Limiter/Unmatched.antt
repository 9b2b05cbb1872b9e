-- ===== src/Limiter/Unmatched.antt =====
-- pkg/limiter/queue.go: what a release without a matching grant leaves behind.
use spiderpool.Prelude.{
  ◌≡◌, true, false, [], ◌∷◌, none, some, Text, text_eq_refl, lookup, insert, lookup-insert,
  lookup-remove, arith,
}
use spiderpool.Limiter.Queue.{
  pos, Granted, drop_ticket, release_tickets, check_available_ticket, held, decrement,
}

-- After a release of a ticket that nobody holds, the check of a request for that ticket answers that
-- it is not available.
check_available_ticket-unheld :
    (t : Text) (g : Granted)
    → lookup t g ≡ none
    → check_available_ticket (release_tickets (t ∷ []) g) (t ∷ []) ≡ false
unfolding check_available_ticket release_tickets drop_ticket
check_available_ticket-unheld t g h =
    ground (arith, text_eq_refl t, lookup-insert t t (decrement (held t g)) g)

-- Releasing a ticket that another request holds makes it available although it is held.
pub check_available_ticket-held :
    (t : Text) (g : Granted)
    → lookup t g ≡ some (pos 1)
    → check_available_ticket (release_tickets (t ∷ []) g) (t ∷ []) ≡ true
unfolding check_available_ticket release_tickets drop_ticket
check_available_ticket-held t g h = ground (
  arith,
  text_eq_refl t,
  lookup-insert t t (decrement (held t g)) g,
  lookup-remove t t (insert t (decrement (held t g)) g),
)
