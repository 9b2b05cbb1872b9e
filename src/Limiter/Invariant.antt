-- ===== src/Limiter/Invariant.antt =====
-- pkg/limiter/queue.go: the invariant of the limiter, kept by every critical section.
use spiderpool.Prelude.{
  ℕ, ◌≤◌, ◌<◌, ◌≡◌, refl, ◌≢◌, false, List, [], ◌∷◌, ◌++◌, Option, Text, subst, arith, All,
  All-append, length, length-append, lookup,
}
use spiderpool.Limiter.Queue.{
  Queue, Element, polled, ok, queue_up, start, shutdown, resume, checkin, sweep, release_ticket,
  new_limiter, or_default, default_max_queue_size,
}
use spiderpool.Limiter.System.{
  System, Step, starts, arrives, polls, wakes, finishes, stops, initial, Reach, here, next,
}
use spiderpool.Limiter.Sweep.{HasTicket, Fair, sweep-Fair, sweep-All, length-sweep, release-Fair}

pub record Inv (c : Option ℕ) (s : System) : Type 0 where
  pub fair : Fair s.queue.granted_tickets s.working
  pub room : length s.queue.elements ≤ default_max_queue_size c
  pub size : s.queue.max_queue_size ≡ default_max_queue_size c
  pub queued : All HasTicket s.queue.elements
  pub named : All HasTicket s.working

or_default-ne_nil : (ts : List Text) → or_default ts ≢ []
or_default-ne_nil [] e = cc
or_default-ne_nil (t ∷ ts) e = cc

pub resume_polled :
    (q r : Queue) (es : List Element)
    → resume q ≡ polled r es
    → let s = sweep q.granted_tickets q.elements in
      (r ≡ record q { elements = s.kept; granted_tickets = s.granted }) × (es ≡ s.notified)
unfolding resume
resume_polled q r es h = ground arith

resume-Inv :
    {c : Option ℕ} {s : System} (q : Queue) (es : List Element)
    → resume s.queue ≡ polled q es
    → Inv c s
    → Inv c (record { queue = q; working = es ++ s.working })
resume-Inv {c} {s} q es h v =
    let g = s.queue.granted_tickets in
    let (eq, ees) = resume_polled s.queue q es h in
    let (kept, new) = sweep-All HasTicket s.queue.elements g v.queued in
    rw (eq, ees)
      (record {
        fair = sweep-Fair s.queue.elements g s.working v.fair;
        room = omega (arith, length-sweep s.queue.elements g, v.room);
        size = v.size;
        queued = kept;
        named = All-append HasTicket _ s.working new v.named;
      })

All-remove :
    (P : Element → Type 0) (xs ys : List Element) (e : Element)
    → All P (xs ++ e ∷ ys)
    → All P (xs ++ ys)
All-remove P [] ys e h = h.1
All-remove P (x ∷ xs) ys e h = (h.0, All-remove P xs ys e h.1)

start_ok : (q r : Queue) → start q ≡ ok r → record q { shutting_down = false } ≡ r
unfolding start
start_ok q r h = ground arith

queue_up_ok :
    (q r : Queue) (id : ℕ) (ts : List Text)
    → queue_up q id ts ≡ ok r
    → (record q { elements = q.elements ++ record { id = id; wanted_tickets = or_default ts } ∷ [] }
        ≡ r)
      × (length q.elements < q.max_queue_size)
unfolding queue_up
queue_up_ok q r id ts h = ground arith

checkin_polled :
    (q r : Queue) (es : List Element) → checkin q ≡ polled r es → resume q ≡ polled r es
unfolding checkin
checkin_polled q r es h = ground arith

Step-Inv : {c : Option ℕ} {s t : System} → Step s t → Inv c s → Inv c t
unfolding release_ticket shutdown
Step-Inv {s} (starts {q = q} h) v =
    rw (← start_ok s.queue q h)
      (record { fair = v.fair; room = v.room; size = v.size; queued = v.queued; named = v.named })
Step-Inv {s} (arrives {q = q} id ts h) v =
    let e : Element = record { id = id; wanted_tickets = or_default ts } in
    let (eq, fits) = queue_up_ok s.queue q id ts h in
    rw (← eq) (record {
      fair = v.fair;
      room = omega (arith, v.size, length-append s.queue.elements (e ∷ []));
      size = v.size;
      queued = All-append HasTicket s.queue.elements _ v.queued (or_default-ne_nil ts, tt);
      named = v.named;
    })
Step-Inv {s} (polls {q = q} {es = es} h) v = resume-Inv q es (checkin_polled s.queue q es h) v
Step-Inv (wakes {q = q} {es = es} h) v = resume-Inv q es h v
Step-Inv {s} (finishes before after id ts h) v =
    let e : Element = record { id = id; wanted_tickets = or_default ts } in
    record {
      fair = release-Fair s.queue.granted_tickets before after e (subst (Fair _) h v.fair);
      room = v.room;
      size = v.size;
      queued = v.queued;
      named = All-remove HasTicket before after e (subst (All HasTicket) h v.named);
    }
Step-Inv stops v = record {
  fair = v.fair;
  room = v.room;
  size = v.size;
  queued = v.queued;
  named = v.named;
}

initial-Inv : (c : Option ℕ) → Inv c (initial c)
unfolding new_limiter lookup
initial-Inv c = record {
  fair = record { counts = λ t. refl; once = λ t. omega arith };
  room = omega arith;
  size = refl;
  queued = tt;
  named = tt;
}

pub Reach-Inv : {c : Option ℕ} {s : System} → Reach c s → Inv c s
Reach-Inv {c} here = initial-Inv c
Reach-Inv (next r st) = Step-Inv st (Reach-Inv r)
