-- ===== src/Limiter/Safety.antt =====
-- pkg/limiter/queue.go: what holds in every reachable state of the limiter.
use spiderpool.Prelude.{
  ℕ, zero, suc, ◌+◌, ◌≤◌, ◌≡◌, refl, sym, ap, ◌∙◌, ◌↔◌, true, false, List, [], ◌∷◌, Option, none,
  Text, text_eq_refl, arith, All, length, lookup,
}
use spiderpool.Limiter.Queue.{
  Queue, Element, Granted, polled, resume, check_available_ticket, is_all_tickets_retrieved,
  default_max_queue_size,
}
use spiderpool.Limiter.Tickets.{count, entry}
use spiderpool.Limiter.System.{System, Reach, total, holders}
use spiderpool.Limiter.Sweep.{HasTicket, length-sweep, kept_blocked}
use spiderpool.Limiter.Invariant.{Reach-Inv, resume_polled}

-- In every reachable state of the limiter, a ticket is held by at most one working request.
pub mutual_exclusion :
    {c : Option ℕ} {s : System} → Reach c s → (t : Text) → holders t s.working ≤ 1
mutual_exclusion r t = (Reach-Inv r).fair.once t

-- In every reachable state the queue is no longer than its configured maximum, 1000 by default.
length-elements-le :
    {c : Option ℕ} {s : System} → Reach c s → length s.queue.elements ≤ default_max_queue_size c
length-elements-le r = (Reach-Inv r).room

no_tickets : (g : Granted) → ((t : Text) → lookup t g ≡ none) → g ≡ []
unfolding lookup
no_tickets [] h = refl
no_tickets ((k, v) ∷ m) h = ground (arith, h k, text_eq_refl k)

no_workers : (ws : List Element) → All HasTicket ws → ((t : Text) → total t ws ≡ 0) → ws ≡ []
no_workers [] n h = refl
no_workers (e ∷ ws) n h = absurd (n.0 (none_wanted e.wanted_tickets (λ t. omega (arith, h t))))
  where
    none_wanted : (ts : List Text) → ((t : Text) → count t ts ≡ 0) → ts ≡ []
    none_wanted [] k = refl
    none_wanted (u ∷ us) k = ground (arith, k u, text_eq_refl u)

entry-none : (n : ℕ) → entry n ≡ none → n ≡ 0
entry-none zero e = refl
entry-none (suc n) e = cc

-- In every reachable state the test of `gracefulShutdown` holds exactly when no request works.
is_all_tickets_retrieved_iff :
    {c : Option ℕ} {s : System}
    → Reach c s
    → (is_all_tickets_retrieved s.queue ≡ true) ↔ (s.working ≡ [])
unfolding is_all_tickets_retrieved lookup
is_all_tickets_retrieved_iff {s} r =
    let v = Reach-Inv r in
    (
      λ e.
          let empty : s.queue.granted_tickets ≡ [] = ground arith in
          no_workers s.working v.named
            (λ t. entry-none (total t s.working) (sym (v.fair.counts t) ∙ ap (lookup t) empty)),
      λ e. rw (
          no_tickets s.queue.granted_tickets
            (λ t. v.fair.counts t ∙ ap (λ ws. entry (total t ws)) e)),
    )

-- After a sweep in a reachable state every request that is still queued wants a ticket that is
-- granted, and as many requests are still queued or have their channel closed as were queued.
pub resume-kept_blocked :
    {c : Option ℕ} {s : System} (q : Queue) (es : List Element)
    → Reach c s
    → resume s.queue ≡ polled q es
    → All (λ e. check_available_ticket q.granted_tickets e.wanted_tickets ≡ false) q.elements
      × (length q.elements + length es ≡ length s.queue.elements)
resume-kept_blocked {s} q es r h =
    let (eq, ees) = resume_polled s.queue q es h in
    rw (eq, ees)
      (
        kept_blocked s.queue.elements s.queue.granted_tickets s.working (Reach-Inv r).fair,
        length-sweep s.queue.elements s.queue.granted_tickets,
      )
