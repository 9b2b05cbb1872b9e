-- ===== src/Ipam/Candidates/Chosen.antt =====
-- What the choice of candidate pools gives for one interface and one version.
use spiderpool.Prelude.{
  ◌≡◌, refl, sym, ap, subst, ◌∙◌, Bool, true, false, not, ◌&&◌, List, [], ◌∷◌, Option, none, some,
  Text, lookup, IsMap, is_some, if◌then◌else◌, arith, Bool-cases, Option-cases, inl, inr,
}
use spiderpool.Ipam.Nics.{mem}
use spiderpool.Ipam.Nics.Distinct.{Distinct}
use spiderpool.Ipam.Select.{Request, select_by_pod}
use spiderpool.Ipam.Facts.{CandidatePool, SelectFacts}
use spiderpool.Ipam.Candidates.{
  PoolMap, Candidate, Outcome, ok, err, ◌>>=◌, precheck_pools, precheck_candidate, is_pass,
  filter_pools, require_pools, filter_candidate, names_of, sort_pools, sort_candidate,
}
use spiderpool.Ipam.Candidates.Names.{
  source, Agrees, Prechecked, precheck_pools-Prechecked, lookup-filter_pools, filter_pools-IsMap,
  ByPriority, sort_pools-ByPriority, mem-sort_pools, sort_pools-Distinct,
}

-- Whether a pool may serve the request.
abbrev pub selects : SelectFacts → Request → Candidate → Option CandidatePool → Bool
selects f r c o = is_pass (select_by_pod f r c.ip_version o)

-- The checks of one candidate, one after the other
abbrev pub choose :
    (Text → Option CandidatePool) → SelectFacts → Request → Candidate → Outcome Candidate
choose fetch f r c =
    precheck_candidate fetch c >>= λ d. filter_candidate f r d >>= λ e. ok (sort_candidate e)

-- The pools of the result, in order.
abbrev pub Chosen :
    (Text → Option CandidatePool) → SelectFacts → Request → Candidate → Candidate → Type 0
Chosen fetch f r c d =
    (ps : List CandidatePool) × (d.pools ≡ names_of ps)
    × ByPriority ps
    × Distinct d.pools
    × ((k : Text) → mem k d.pools ≡ (mem k c.pools && selects f r c (source fetch c.to_ip_pool k)))

abbrev Good :
    (Text → Option CandidatePool) → SelectFacts → Request → Candidate → Outcome Candidate → Type 0
Good fetch f r c (err e) = Unit
Good fetch f r c (ok d) = Chosen fetch f r c d

flip : {A : Type 0} (x : Bool) (a b : A) → (if not x then a else b) ≡ (if x then b else a)
flip true a b = refl
flip false a b = refl

is_some-if :
    (x : Bool) (s : Option CandidatePool)
    → (x ≡ true → is_some s ≡ true)
    → is_some (if x then s else none) ≡ x
is_some-if true s h = h refl
is_some-if false s h = refl

module _ (fetch : Text → Option CandidatePool) (f : SelectFacts) (r : Request) (c : Candidate) where
  refuses : selects f r c none ≡ false
  unfolding select_by_pod
  refuses = refl

  chosen_is_some :
      (k : Text) (o : Option CandidatePool)
      → (mem k c.pools && selects f r c o) ≡ true
      → is_some o ≡ true
  chosen_is_some k none h = absurd (ground (arith, refuses))
  chosen_is_some k (some p) h = refl

  module _ (own : Agrees fetch) (agrees : Agrees (λ k. lookup k c.to_ip_pool))
      (known : (k : Text) → mem k c.pools ≡ false → lookup k c.to_ip_pool ≡ none) where
    source-Agrees : Agrees (λ k. source fetch c.to_ip_pool k)
    source-Agrees k p e = elim (Option-cases (lookup k c.to_ip_pool)) [
      | inl new ↦ own k p (rw (source, new) at e)
      | inr (q, had) ↦ agrees k p (had ∙ rw (source, had) at e)
    ]

    lookup-rest :
        (m : PoolMap)
        → Prechecked fetch c.pools c.to_ip_pool (ok m)
        → (k : Text)
        → lookup k (filter_pools (selects f r c) c.pools m).1 ≡ (
            if mem k c.pools && selects f r c (source fetch c.to_ip_pool k)
            then source fetch c.to_ip_pool k
            else none)
    lookup-rest m (i, pre) k =
        lookup-filter_pools (selects f r c) refuses c.pools m k
        ∙ elim (Bool-cases (mem k c.pools)) [
          | inl there ↦
              let at_k : lookup k m ≡ source fetch c.to_ip_pool k = pre k ∙ rw there refl in
              rw (there, at_k) (flip (selects f r c (source fetch c.to_ip_pool k)) none _)
          | inr gone ↦ rw gone (pre k ∙ rw gone (known k gone))
        ]

    rest-Agrees :
        (m : PoolMap)
        → Prechecked fetch c.pools c.to_ip_pool (ok m)
        → Agrees (λ k. lookup k (filter_pools (selects f r c) c.pools m).1)
    rest-Agrees m pre k p e =
        elim (Bool-cases (mem k c.pools && selects f r c (source fetch c.to_ip_pool k))) [
          | inl chosen ↦ source-Agrees k p (rw chosen at (sym (lookup-rest m pre k) ∙ e))
          | inr left ↦ let q : none ≡ some p = rw left at (sym (lookup-rest m pre k) ∙ e) in cc
        ]

    sorted-Good :
        (m : PoolMap)
        → Prechecked fetch c.pools c.to_ip_pool (ok m)
        → (names : List Text) (rest : PoolMap) → IsMap rest
        → Agrees (λ k. lookup k rest)
        → ((k : Text)
            → lookup k rest ≡ (
                if mem k c.pools && selects f r c (source fetch c.to_ip_pool k)
                then source fetch c.to_ip_pool k
                else none))
        → Good fetch f r c (
            require_pools (record c { to_ip_pool = m }) (names, rest) >>= λ e.
            ok (sort_candidate e))
    unfolding sort_candidate
    sorted-Good m pre [] rest i a look = tt
    sorted-Good m pre (n ∷ ns) rest i a look = (
      sort_pools rest,
      refl,
      sort_pools-ByPriority rest,
      sort_pools-Distinct rest i a,
      λ k.
          mem-sort_pools rest i a k
          ∙ ap is_some (look k)
          ∙ is_some-if _ (source fetch c.to_ip_pool k)
              (chosen_is_some k (source fetch c.to_ip_pool k)),
    )

    -- The pools that an interface is left with for one version are those of its candidate that may
    -- serve the pod, no pool twice, and none before a pool of higher priority. The pools that the
    -- candidate already holds, and those that the query finds, are held under their names, and the
    -- candidate holds no pool that it does not list.
    pub choose-Chosen :
        (d : Candidate) → IsMap c.to_ip_pool → choose fetch f r c ≡ ok d → Chosen fetch f r c d
    unfolding precheck_candidate filter_candidate
    choose-Chosen d i h =
        go (precheck_pools fetch [] c.pools c.to_ip_pool)
          (precheck_pools-Prechecked fetch [] c.pools c.to_ip_pool i) h
      where
        ok_injective : (x y : Candidate) → ok x ≡ ok y → x ≡ y
        ok_injective x y e = cc

        good : (o : Outcome Candidate) → Good fetch f r c o → o ≡ ok d → Chosen fetch f r c d
        good (err e) g q = cc
        good (ok x) g q = subst (Chosen fetch f r c) (ok_injective x d q) g

        go :
            (o : Outcome PoolMap)
            → Prechecked fetch c.pools c.to_ip_pool o
            → ((o >>= λ m. ok (record c { to_ip_pool = m })) >>= λ x.
                filter_candidate f r x >>= λ e. ok (sort_candidate e))
              ≡ ok d
            → Chosen fetch f r c d
        go (err e) pre q = cc
        go (ok m) pre q =
            good _
              (sorted-Good m pre _ _ (filter_pools-IsMap (selects f r c) c.pools m pre.0)
                (rest-Agrees m pre) (lookup-rest m pre))
              q
