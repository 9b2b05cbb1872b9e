-- ===== src/Ipam/Candidates/Names.antt =====
-- The names and the map of a candidate through the checks, the filter and the sort.
use spiderpool.Prelude.{
  ℕ, ◌≤◌, ◌≡◌, refl, sym, ap, ◌∙◌, Bool, true, false, not, ◌&&◌, ◌||◌, List, [], ◌∷◌, Option, none,
  some, Text, text_eq, text_eq_iff, text_eq_refl, lookup, insert, remove, lookup-insert,
  lookup-remove, insert-IsMap, remove-IsMap, IsMap, All, ltb, is_some, if◌then◌else◌, arith,
  Bool-cases, Option-cases, inl, inr,
}
use spiderpool.Pool.Priority.{less, priority, less_lem}
use spiderpool.Ipam.Nics.{mem}
use spiderpool.Ipam.Nics.Distinct.{Distinct}
use spiderpool.Ipam.Facts.{CandidatePool}
use spiderpool.Ipam.Candidates.{
  PoolMap, Outcome, ok, err, precheck_pools, filter_pools, insert_pool, sort_pools, names_of,
}

-- What the map has for a name, or the query finds.
abbrev pub source : (Text → Option CandidatePool) → PoolMap → Text → Option CandidatePool
source fetch m k = elim (lookup k m) [ some p ↦ some p | none ↦ fetch k ]

-- A pool is found under its own name.
abbrev pub Agrees : (Text → Option CandidatePool) → Type 0
Agrees find = (k : Text) (p : CandidatePool) → find k ≡ some p → p.name ≡ k

-- What the loop of the precheck leaves.
abbrev pub Prechecked :
    (Text → Option CandidatePool) → List Text → PoolMap → Outcome PoolMap → Type 0
Prechecked fetch ns m (err e) = Unit
Prechecked fetch ns m (ok m') =
    IsMap m' × ((k : Text) → lookup k m' ≡ (if mem k ns then source fetch m k else lookup k m))

Prechecked-known :
    (fetch : Text → Option CandidatePool) (n : Text) (ns : List Text) (m : PoolMap)
    (o : Outcome PoolMap) (p : CandidatePool)
    → lookup n m ≡ some p
    → Prechecked fetch ns m o
    → Prechecked fetch (n ∷ ns) m o
Prechecked-known fetch n ns m (err e) p h v = tt
Prechecked-known fetch n ns m (ok m') p h (i, v) = (i, λ k. ground (arith, v k, text_eq_iff k n))

Prechecked-fetched :
    (fetch : Text → Option CandidatePool) (n : Text) (ns : List Text) (m : PoolMap)
    (o : Outcome PoolMap) (p : CandidatePool)
    → lookup n m ≡ none
    → fetch n ≡ some p
    → Prechecked fetch ns (insert n p m) o
    → Prechecked fetch (n ∷ ns) m o
Prechecked-fetched fetch n ns m (err e) p h q v = tt
Prechecked-fetched fetch n ns m (ok m') p h q (i, v) =
    (i, λ k. ground (arith, v k, text_eq_iff k n, text_eq_iff n k, lookup-insert n k p m))

pub precheck_pools-Prechecked :
    (fetch : Text → Option CandidatePool) (marks ns : List Text) (m : PoolMap)
    → IsMap m
    → Prechecked fetch ns m (precheck_pools fetch marks ns m)
unfolding precheck_pools
precheck_pools-Prechecked fetch marks [] m h = (h, λ k. refl)
precheck_pools-Prechecked fetch marks (n ∷ ns) m h = elim (Bool-cases (mem n marks)) [
  | inl twice ↦ rw twice tt
  | inr new ↦ elim (Option-cases (lookup n m)) [
    | inr (p, known) ↦
        rw (new, known)
          (Prechecked-known fetch n ns m _ p known
            (precheck_pools-Prechecked fetch (n ∷ marks) ns m h))
    | inl unknown ↦ elim (Option-cases (fetch n)) [
      | inl missing ↦ rw (new, unknown, missing) tt
      | inr (p, got) ↦
          rw (new, unknown, got)
            (Prechecked-fetched fetch n ns m _ p unknown got (
              precheck_pools-Prechecked fetch (n ∷ marks) ns (insert n p m) (insert-IsMap n p m h)))
    ]
  ]
]

-- What the filter leaves, for a test that refuses a missing pool.
module _ (selects : Option CandidatePool → Bool) (refuses : selects none ≡ false) where
  pub mem-filter_pools :
      (ns : List Text) (m : PoolMap) (k : Text)
      → mem k (filter_pools selects ns m).0 ≡ (mem k ns && selects (lookup k m))
  unfolding filter_pools
  mem-filter_pools [] m k = refl
  mem-filter_pools (n ∷ ns) m k = ground (
    arith,
    text_eq_iff k n,
    text_eq_iff n k,
    lookup-remove n k m,
    mem-filter_pools ns m k,
    mem-filter_pools ns (remove n m) k,
  )

  pub lookup-filter_pools :
      (ns : List Text) (m : PoolMap) (k : Text)
      → lookup k (filter_pools selects ns m).1
        ≡ (if mem k ns && not (selects (lookup k m)) then none else lookup k m)
  unfolding filter_pools
  lookup-filter_pools [] m k = refl
  lookup-filter_pools (n ∷ ns) m k = ground (
    arith,
    text_eq_iff k n,
    text_eq_iff n k,
    lookup-remove n k m,
    lookup-filter_pools ns m k,
    lookup-filter_pools ns (remove n m) k,
  )

pub filter_pools-IsMap :
    (selects : Option CandidatePool → Bool) (ns : List Text) (m : PoolMap)
    → IsMap m
    → IsMap (filter_pools selects ns m).1
unfolding filter_pools
filter_pools-IsMap selects [] m h = h
filter_pools-IsMap selects (n ∷ ns) m h = ground (
  arith,
  filter_pools-IsMap selects ns m h,
  filter_pools-IsMap selects ns (remove n m) (remove-IsMap n m h),
)

-- Each pool's priority is at least that of every later one.
abbrev pub ByPriority : List CandidatePool → Type 0
ByPriority [] = Unit
ByPriority (p ∷ ps) =
    All (λ (q : CandidatePool). priority q.selectors ≤ priority p.selectors) ps × ByPriority ps

mem-insert_pool :
    (k : Text) (p : CandidatePool) (qs : List CandidatePool)
    → mem k (names_of (insert_pool p qs)) ≡ (text_eq k p.name || mem k (names_of qs))
unfolding insert_pool
mem-insert_pool k p [] = refl
mem-insert_pool k p (q ∷ qs) = elim (Bool-cases (less q.selectors p.selectors)) [
  | inl e ↦ rw (e, mem-insert_pool k p qs) (or_swap (text_eq k q.name) (text_eq k p.name) _)
  | inr e ↦ rw e refl
]
  where
    or_swap : (a b c : Bool) → (a || (b || c)) ≡ (b || (a || c))
    or_swap a b c = ground arith

insert_pool-All :
    (P : CandidatePool → Type 0) (p : CandidatePool) (qs : List CandidatePool)
    → P p
    → All P qs
    → All P (insert_pool p qs)
unfolding insert_pool
insert_pool-All P p [] hp h = (hp, tt)
insert_pool-All P p (q ∷ qs) hp h = elim (Bool-cases (less q.selectors p.selectors)) [
  | inl e ↦ rw e (h.0, insert_pool-All P p qs hp h.1)
  | inr e ↦ rw e (hp, h)
]

All-le :
    (a b : ℕ) (qs : List CandidatePool)
    → a ≤ b
    → All (λ (q : CandidatePool). priority q.selectors ≤ a) qs
    → All (λ (q : CandidatePool). priority q.selectors ≤ b) qs
All-le a b [] le h = tt
All-le a b (q ∷ qs) le h = (omega (arith, h.0), All-le a b qs le h.1)

insert_pool-ByPriority :
    (p : CandidatePool) (qs : List CandidatePool) → ByPriority qs → ByPriority (insert_pool p qs)
unfolding insert_pool
insert_pool-ByPriority p [] h = (tt, tt)
insert_pool-ByPriority p (q ∷ qs) h = elim (Bool-cases (less q.selectors p.selectors)) [
  | inl e ↦
      let lt : ltb (priority p.selectors) (priority q.selectors) ≡ true =
        sym (less_lem q.selectors p.selectors) ∙ e in
      rw e (insert_pool-All _ p qs (ground arith) h.0, insert_pool-ByPriority p qs h.1)
  | inr e ↦
      let ge : ltb (priority p.selectors) (priority q.selectors) ≡ false =
        sym (less_lem q.selectors p.selectors) ∙ e in
      let le : priority q.selectors ≤ priority p.selectors = ground arith in
      rw e ((le, All-le _ _ qs le h.0), h)
]

pub sort_pools-ByPriority : (m : PoolMap) → ByPriority (sort_pools m)
unfolding sort_pools
sort_pools-ByPriority [] = tt
sort_pools-ByPriority ((k, p) ∷ m) =
    insert_pool-ByPriority p (sort_pools m) (sort_pools-ByPriority m)

insert_pool-Distinct :
    (p : CandidatePool) (qs : List CandidatePool)
    → mem p.name (names_of qs) ≡ false
    → Distinct (names_of qs)
    → Distinct (names_of (insert_pool p qs))
unfolding insert_pool
insert_pool-Distinct p [] h d = (refl, tt)
insert_pool-Distinct p (q ∷ qs) h d = elim (Bool-cases (less q.selectors p.selectors)) [
  | inl e ↦ rw e (
    mem-insert_pool q.name p qs
        ∙ apart (text_eq q.name p.name) (text_eq p.name q.name) _ _ (text_eq_sym q.name p.name) h
            d.0,
    insert_pool-Distinct p qs (later (text_eq p.name q.name) _ h) d.1,
  )
  | inr e ↦ rw e (h, d)
]
  where
    text_eq_sym : (a b : Text) → text_eq a b ≡ text_eq b a
    text_eq_sym a b = ground (arith, text_eq_iff a b, text_eq_iff b a)

    apart : (a b c d : Bool) → a ≡ b → (b || c) ≡ false → d ≡ false → (a || d) ≡ false
    apart a b c d e h g = ground arith

    later : (b c : Bool) → (b || c) ≡ false → c ≡ false
    later b c h = ground arith

Agrees-tail :
    (j : Text) (p : CandidatePool) (m : PoolMap)
    → IsMap ((j, p) ∷ m)
    → Agrees (λ k. lookup k ((j, p) ∷ m))
    → Agrees (λ k. lookup k m)
unfolding lookup
Agrees-tail j p m h a k q e = a k q (ground (arith, h.0, text_eq_iff j k))

pub mem-sort_pools :
    (m : PoolMap)
    → IsMap m
    → Agrees (λ k. lookup k m)
    → (k : Text) → mem k (names_of (sort_pools m)) ≡ is_some (lookup k m)
unfolding sort_pools lookup
mem-sort_pools [] h a k = refl
mem-sort_pools ((j, p) ∷ m) h a k =
    let same : p.name ≡ j = a j p (rw (text_eq_refl j) refl) in
    mem-insert_pool k p (sort_pools m)
    ∙ ap (λ n. text_eq k n || mem k (names_of (sort_pools m))) same
    ∙ ap (λ b. text_eq k j || b) (mem-sort_pools m h.1 (Agrees-tail j p m h a) k)
    ∙ ground (arith, text_eq_iff k j, text_eq_iff j k)

pub sort_pools-Distinct :
    (m : PoolMap) → IsMap m → Agrees (λ k. lookup k m) → Distinct (names_of (sort_pools m))
unfolding sort_pools lookup
sort_pools-Distinct [] h a = tt
sort_pools-Distinct ((j, p) ∷ m) h a =
    let same : p.name ≡ j = a j p (rw (text_eq_refl j) refl) in
    insert_pool-Distinct p (sort_pools m)
      (rw (same, mem-sort_pools m h.1 (Agrees-tail j p m h a) j, h.0) refl)
      (sort_pools-Distinct m h.1 (Agrees-tail j p m h a))
