-- ===== src/Gc/PodEntries/Traced.antt =====
-- Which pods `buildPodEntry` makes an entry for.
use spiderpool.Prelude.{
  ℕ, ◌+◌, ◌≡◌, ◌∙◌, refl, sym, ap, subst, Bool, true, false, not, ◌||◌, Option, none, some, Text,
  codes, text_eq, length, ◌==◌, if◌then◌else◌, arith, Bool-cases, inl, inr, is_some,
}
use spiderpool.Gc.PodDatabase.{PodEntry, pod_running}
use spiderpool.Gc.PodEntries.{
  pending, running, succeeded, failed, unknown, Phase, Pod, Config, Checks, Answer, ok, err, ◌>>=◌,
  Tracing, untraced, terminating, ended, is_ended, tracing_of, build_traced, build_deleted,
  build_pod_entry, compute_terminating_time, grace_differs, phase_text, Times, entry_of,
  deleting_times, times_from, latest,
}

bind-ok :
    {A B : Type 0} (r : Answer A) (f : A → Answer B) (b : B)
    → (r >>= f) ≡ ok b
    → (a : A) × (r ≡ ok a) × (f a ≡ ok b)
bind-ok (ok a) f b h = (a, refl, h)
bind-ok (err e) f b h = cc

-- The pod is deleted, being deleted, or ended.
abbrev pub is_leaving : Pod → Bool → Bool
is_leaving p deleted = deleted || (is_some p.deletion_timestamp || is_ended p.phase)

-- An entry of the pod with a period that fits, whose reason is not that the pod runs, and that has
-- not been queued again.
abbrev pub Describes : Pod → PodEntry → Type 0
Describes p e =
    (e.pod_name ≡ p.name)
    × (e.namespace ≡ p.namespace)
    × (e.uid ≡ p.uid)
    × (e.tracing_stop_time ≡ e.tracing_start_time + e.tracing_graceful_time)
    × (text_eq e.pod_tracing_reason pod_running ≡ false)
    × (e.num_requeues ≡ 0)

tracing_of-staying :
    (old : Option Pod) (p : Pod)
    → is_some p.deletion_timestamp ≡ false
    → is_ended p.phase ≡ false
    → tracing_of old p ≡ ok untraced
unfolding tracing_of
tracing_of-staying none p d e = rw (d, e) refl
tracing_of-staying (some old) p d e = rw (d, e) refl

some-injective :
    (a b : PodEntry) → ◌≡◌ {A = Answer (Option PodEntry)} (ok (some a)) (ok (some b)) → a ≡ b
some-injective a b h = cc

-- Times whose end is their start with the period.
abbrev Fitting : Times → Type 0
Fitting (start, stop, graceful) = stop ≡ start + graceful

entry_of-Describes :
    (k : Checks) (p : Pod) (reason : Text) (t : Times) (e : PodEntry)
    → Fitting t
    → text_eq reason pod_running ≡ false
    → entry_of k p reason t ≡ e
    → Describes p e
entry_of-Describes k p reason (start, stop, graceful) e f r h =
    subst (Describes p) h (refl, refl, refl, f, r, refl)

times_from-Fitting :
    (config : Config) (start : ℕ) (g : Option ℕ) (t : Times)
    → times_from config start g ≡ ok t
    → Fitting t
times_from-Fitting config start none t h = cc
times_from-Fitting config start (some g) t h = subst Fitting (answer-injective _ t h) refl
  where
    answer-injective : (a b : Times) → ◌≡◌ {A = Answer Times} (ok a) (ok b) → a ≡ b
    answer-injective a b e = cc

compute-Fitting :
    (config : Config) (p : Pod) (t : Times) → compute_terminating_time config p ≡ ok t → Fitting t
unfolding compute_terminating_time
compute-Fitting config p t h = elim (Bool-cases (length p.container_statuses == 0)) [
  | inl bare ↦ let g = rw bare at h in cc
  | inr some_left ↦ elim (Bool-cases (latest 0 p.container_statuses == 0)) [
    | inl never ↦ let g = rw (some_left, never) at h in cc
    | inr start ↦
        times_from-Fitting config (latest 0 p.container_statuses) p.termination_grace_period_seconds
          t (rw (some_left, start) at h)
  ]
]

deleting-Fitting :
    (config : Config) (s g : Option ℕ) (t : Times) → deleting_times config s g ≡ ok t → Fitting t
deleting-Fitting config none g t h = cc
deleting-Fitting config (some s) none t h = cc
deleting-Fitting config (some s) (some g) t h = times_from-Fitting config s (some g) t h

-- An entry comes from a check of the node that passes.
gated :
    (enabled : Bool) (r : Answer (Option PodEntry)) (e : PodEntry)
    → (if not enabled then ok none else r) ≡ ok (some e)
    → r ≡ ok (some e)
gated true r e h = h
gated false r e h = cc

made :
    (k : Checks) (p : Pod) (reason : Text) (r : Answer Times) (e : PodEntry)
    → ((t : Times) → r ≡ ok t → Fitting t)
    → text_eq reason pod_running ≡ false
    → (r >>= λ t. ok (some (entry_of k p reason t))) ≡ ok (some e)
    → Describes p e
made k p reason r e f n h =
    let (t, rt, g) = bind-ok r _ (some e) h in
    entry_of-Describes k p reason t e (f t rt) n (some-injective (entry_of k p reason t) e g)

ended_text :
    (phase : Phase) → is_ended phase ≡ true → text_eq (phase_text phase) pod_running ≡ false
unfolding text_eq
ended_text pending h = cc
ended_text running h = cc
ended_text succeeded h = refl
ended_text failed h = refl
ended_text unknown h = cc

terminating_text : text_eq (codes "Terminating") pod_running ≡ false
unfolding text_eq
terminating_text = refl

deleted_text : text_eq (codes "Deleted") pod_running ≡ false
unfolding text_eq
deleted_text = refl

build_traced-Describes :
    (config : Config) (k : Checks) (p : Pod) (w : Tracing) (e : PodEntry)
    → (w ≡ ended → is_ended p.phase ≡ true)
    → build_traced config k p w ≡ ok (some e)
    → Describes p e
unfolding build_traced
build_traced-Describes config k p untraced e q h = cc
build_traced-Describes config k p terminating e q h =
    let (enabled, _, h1) = bind-ok (k.is_should_gc_or_trace p) _ (some e) h in
    made k p (codes "Terminating")
      (deleting_times config p.deletion_timestamp p.deletion_grace_period_seconds) e
      (deleting-Fitting config p.deletion_timestamp p.deletion_grace_period_seconds)
      terminating_text (gated enabled _ e h1)
build_traced-Describes config k p ended e q h =
    let (enabled, _, h1) = bind-ok (k.is_should_gc_or_trace p) _ (some e) h in
    made k p (phase_text p.phase) (compute_terminating_time config p) e (compute-Fitting config p)
      (ended_text p.phase (q refl)) (gated enabled _ e h1)

tracing_of-ended :
    (old : Option Pod) (p : Pod) → tracing_of old p ≡ ok ended → is_ended p.phase ≡ true
unfolding tracing_of
tracing_of-ended none p h = ground arith
tracing_of-ended (some old) p h = elim (Bool-cases (is_ended p.phase)) [
  | inl e ↦ e
  | inr ne ↦ elim (Bool-cases (is_some p.deletion_timestamp)) [
    | inr stays ↦ let g = sym (tracing_of-staying (some old) p stays ne) ∙ h in cc
    | inl leaves ↦ elim (Bool-cases (is_some old.deletion_timestamp)) [
      | inr first ↦ let g = rw (leaves, first) at h in cc
      | inl again ↦
          let (d, _, g) =
            bind-ok
              (grace_differs p.termination_grace_period_seconds
                old.termination_grace_period_seconds)
              _ ended (rw (leaves, again, ne) at h) in
          differs d g
    ]
  ]
]
  where
    differs :
        (d : Bool)
        → (if d then ok terminating else ok untraced) ≡ ok ended
        → is_ended p.phase ≡ true
    differs true g = cc
    differs false g = cc

build_deleted-leaving :
    (config : Config) (k : Checks) (old : Option Pod) (p : Pod) (deleted : Bool) (e : PodEntry)
    → build_deleted config k old p deleted ≡ ok (some e)
    → Describes p e × (is_leaving p deleted ≡ true)
unfolding build_deleted build_traced
build_deleted-leaving config k old p true e h = (
  entry_of-Describes k p (codes "Deleted")
      (k.now, k.now + config.additional_grace_delay, config.additional_grace_delay) e refl
      deleted_text (some-injective _ e h),
  refl,
)
build_deleted-leaving config k old p false e h =
    let (w, tw, h1) = bind-ok (tracing_of old p) _ (some e) h in
    (
      build_traced-Describes config k p w e (λ q. tracing_of-ended old p (tw ∙ ap ok q)) h1,
      elim (Bool-cases (is_some p.deletion_timestamp)) [
        | inl d ↦ rw d refl
        | inr d ↦ elim (Bool-cases (is_ended p.phase)) [
          | inl ends ↦ rw (d, ends) refl
          | inr runs ↦ let g = rw (tracing_of-staying old p d runs) at h in cc
        ]
      ],
    )

unchecked :
    (stop : Answer Bool) (r : Answer (Option PodEntry)) (e : PodEntry)
    → (stop >>= λ b. if b then ok none else r) ≡ ok (some e)
    → r ≡ ok (some e)
unchecked (ok true) r e h = cc
unchecked (ok false) r e h = h
unchecked (err x) r e h = cc

unhosted :
    (host : Bool) (r : Answer (Option PodEntry)) (e : PodEntry)
    → (if host then ok none else r) ≡ ok (some e)
    → (host ≡ false) × (r ≡ ok (some e))
unhosted true r e h = cc
unhosted false r e h = (refl, h)

-- `buildPodEntry` makes an entry only of a pod that is deleted, being deleted, or ended, and that
-- has a network of its own; the entry has the name and uid of the pod, stops one grace period
-- after its start, its reason is not that the pod runs, and it counts no retry yet.
pub build_pod_entry-Describes :
    (config : Config) (k : Checks) (old : Option Pod) (p : Pod) (deleted : Bool) (e : PodEntry)
    → build_pod_entry config k old (some p) deleted ≡ ok (some e)
    → Describes p e × (is_leaving p deleted ≡ true) × (p.host_network ≡ false)
unfolding build_pod_entry
build_pod_entry-Describes config k old p deleted e h =
    let (own, h1) = unhosted p.host_network _ e h in
    let (d, l) =
      build_deleted-leaving config k old p deleted e (unchecked _ _ e (unchecked _ _ e h1)) in
    (d, l, own)
