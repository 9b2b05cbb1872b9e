-- ===== src/Limiter/Sweep.antt =====
-- pkg/limiter/queue.go: the loop of `checkin` over the queue, and the release of tickets.
use spiderpool.Prelude.{
  ℕ, ◌+◌, ◌≤◌, ◌≡◌, ap, ◌∙◌, ◌≢◌, true, false, List, [], ◌∷◌, ◌++◌, Text, arith, All, length,
  Bool-cases, inl, inr,
}
use spiderpool.Limiter.Queue.{
  Element, Granted, sweep, Sweep, release_tickets, grant_tickets, check_available_ticket,
}
use spiderpool.Limiter.Tickets.{
  entry, Holds, grant_tickets_lem, release_tickets_lem, check_available_ticket_iff,
}
use spiderpool.Limiter.System.{total, holders, total-append, holders-append, holders-eq_zero}

abbrev pub HasTicket : Element → Type 0
HasTicket e = e.wanted_tickets ≢ []

-- The counts are those of the workers, and no ticket has two holders.
pub record Fair (g : Granted) (ws : List Element) : Type 0 where
  pub counts : Holds g (λ t. total t ws)
  pub once : (t : Text) → holders t ws ≤ 1

-- The order of the workers does not matter.
Fair-middle :
    {g : Granted} (xs ys : List Element) (e : Element)
    → Fair g (xs ++ e ∷ ys)
    → Fair g (e ∷ xs ++ ys)
Fair-middle xs ys e f = record {
  counts =
      λ t. f.counts t ∙ ap entry (omega (arith, total-append t xs (e ∷ ys), total-append t xs ys));
  once = λ t. omega (arith, f.once t, holders-append t xs (e ∷ ys), holders-append t xs ys);
}

grant_tickets-Fair :
    (g : Granted) (e : Element) (ws : List Element)
    → check_available_ticket g e.wanted_tickets ≡ true
    → Fair g ws
    → Fair (grant_tickets e.wanted_tickets g) (e ∷ ws)
grant_tickets-Fair g e ws free f = record {
  counts = grant_tickets_lem e.wanted_tickets g (λ t. total t ws) f.counts;
  once = λ t. ground (
    arith,
    f.once t,
    (check_available_ticket_iff e.wanted_tickets g (λ u. total u ws) f.counts).0 free t,
    holders-eq_zero t ws,
  );
}

abbrev admit : Element → Sweep → Sweep
admit e s = record s { notified = e ∷ s.notified }

abbrev keep : Element → Sweep → Sweep
keep e s = record s { kept = e ∷ s.kept }

sweep_free :
    (e : Element) (es : List Element) (g : Granted)
    → check_available_ticket g e.wanted_tickets ≡ true
    → sweep g (e ∷ es) ≡ admit e (sweep (grant_tickets e.wanted_tickets g) es)
unfolding sweep
sweep_free e es g h = rw (h, sweep)

sweep_taken :
    (e : Element) (es : List Element) (g : Granted)
    → check_available_ticket g e.wanted_tickets ≡ false
    → sweep g (e ∷ es) ≡ keep e (sweep g es)
unfolding sweep
sweep_taken e es g h = rw (h, sweep)

-- The sweep keeps the counts right, and its new workers conflict with nobody.
pub sweep-Fair :
    (es : List Element) (g : Granted) (ws : List Element)
    → Fair g ws
    → Fair (sweep g es).granted ((sweep g es).notified ++ ws)
unfolding sweep
sweep-Fair [] g ws f = f
sweep-Fair (e ∷ es) g ws f = elim (Bool-cases (check_available_ticket g e.wanted_tickets)) [
  | inl free ↦ rw (sweep_free e es g free) (
      Fair-middle _ ws e (
        sweep-Fair es (grant_tickets e.wanted_tickets g) (e ∷ ws)
          (grant_tickets-Fair g e ws free f)))
  | inr taken ↦ rw (sweep_taken e es g taken) (sweep-Fair es g ws f)
]

pub release-Fair :
    (g : Granted) (before after : List Element) (e : Element)
    → Fair g (before ++ e ∷ after)
    → Fair (release_tickets e.wanted_tickets g) (before ++ after)
release-Fair g before after e f = record {
  counts =
      release_tickets_lem e.wanted_tickets g (λ t. total t (before ++ after))
        (Fair-middle before after e f).counts;
  once = λ t. omega (arith, (Fair-middle before after e f).once t);
}

pub sweep-All :
    (P : Element → Type 0) (es : List Element) (g : Granted)
    → All P es
    → All P (sweep g es).kept × All P (sweep g es).notified
unfolding sweep
sweep-All P [] g h = (tt, tt)
sweep-All P (e ∷ es) g h = elim (Bool-cases (check_available_ticket g e.wanted_tickets)) [
  | inl free ↦
      let (k, n) = sweep-All P es (grant_tickets e.wanted_tickets g) h.1 in
      rw (sweep_free e es g free) (k, (h.0, n))
  | inr taken ↦ let (k, n) = sweep-All P es g h.1 in rw (sweep_taken e es g taken) ((h.0, k), n)
]

pub length-sweep :
    (es : List Element) (g : Granted)
    → length (sweep g es).kept + length (sweep g es).notified ≡ length es
unfolding sweep
length-sweep [] g = omega arith
length-sweep (e ∷ es) g = elim (Bool-cases (check_available_ticket g e.wanted_tickets)) [
  | inl free ↦
      rw (sweep_free e es g free)
        (omega (arith, length-sweep es (grant_tickets e.wanted_tickets g)))
  | inr taken ↦ rw (sweep_taken e es g taken) (omega (arith, length-sweep es g))
]

available_mono :
    (ts : List Text) (g g' : Granted) (c c' : Text → ℕ)
    → Holds g c
    → Holds g' c'
    → ((t : Text) → c t ≤ c' t)
    → check_available_ticket g' ts ≡ true
    → check_available_ticket g ts ≡ true
available_mono ts g g' c c' h h' le e =
    (check_available_ticket_iff ts g c h).1
      (λ t p. omega (arith, (check_available_ticket_iff ts g' c' h').0 e t p, le t))

pub kept_blocked :
    (es : List Element) (g : Granted) (ws : List Element)
    → Fair g ws
    → All
        (λ e. check_available_ticket (sweep g es).granted e.wanted_tickets ≡ false)
        (sweep g es).kept
unfolding sweep
kept_blocked [] g ws f = tt
kept_blocked (e ∷ es) g ws f = elim (Bool-cases (check_available_ticket g e.wanted_tickets)) [
  | inl free ↦ rw (sweep_free e es g free) (
      kept_blocked es (grant_tickets e.wanted_tickets g) (e ∷ ws)
        (grant_tickets-Fair g e ws free f))
  | inr taken ↦ rw (sweep_taken e es g taken) (still taken, kept_blocked es g ws f)
]
  where
    still :
        check_available_ticket g e.wanted_tickets ≡ false
        → check_available_ticket (sweep g es).granted e.wanted_tickets ≡ false
    still taken = elim (Bool-cases (check_available_ticket (sweep g es).granted e.wanted_tickets)) [
      | inl later ↦
          let now =
            available_mono e.wanted_tickets g (sweep g es).granted (λ t. total t ws)
              (λ t. total t ((sweep g es).notified ++ ws)) f.counts (sweep-Fair es g ws f).counts
              (λ t. omega (arith, total-append t (sweep g es).notified ws)) later in
          cc
      | inr h ↦ h
    ]
