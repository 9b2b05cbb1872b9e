-- ===== src/Pool/Api.antt =====
-- pkg/utils/retry/retry.go with the optimistic concurrency of the API server: an operation reads the
-- pool, computes, and writes its status if nobody has written in between.
use spiderpool.Prelude.{
  ℕ, zero, suc, ◌≡◌, ◌⊎◌, refl, inl, inr, Bool, true, false, ◌==◌, ==_iff, if◌then◌else◌,
}
use spiderpool.Pool.Records.{IpPool, PoolError, retries_exhausted, update_failed, Result, ok, err}

-- What one run of the retried function does: return an error, return without a write, or write.
pub data Attempt (A : Type 0) : Type 0 where
  fail : PoolError → Attempt A
  done : A → Attempt A
  write : IpPool → A → Attempt A

-- The rest of the cluster: what others write between the read and the write of an attempt, and
-- whether the write fails for another reason than a conflict. Attempts count down.
pub record Cluster : Type 0 where
  pub others : ℕ → IpPool → IpPool
  pub fails : ℕ → Bool

-- The API server's promise: an object with the same resource version is the same object.
abbrev pub IsVersioned : Cluster → Type 0
IsVersioned c =
    (k : ℕ) (p : IpPool) → (c.others k p).resource_version ≡ p.resource_version → c.others k p ≡ p

-- `retry.DefaultRetry`
abbrev pub default_steps : ℕ
default_steps = 5

abbrev pub written : IpPool → IpPool
written p = record p { resource_version = suc p.resource_version }

module _ {A : Type 0} (c : Cluster) (body : IpPool → Attempt A) where
  -- What the end of an attempt does, where `again` is the run of the further attempts.
  unfoldable pub settled : ℕ → IpPool → IpPool × Result A → Attempt A → IpPool × Result A
  settled k p again (fail e) = (p, err e)
  settled k p again (done a) = (p, ok a)
  settled k p again (write q a) =
      let now = c.others k p in
      if c.fails k
      then (now, err update_failed)
      else if now.resource_version == p.resource_version
      then (written q, ok a)
      else again

  -- `RetryOnConflictWithContext` on the state of the server.
  unfoldable pub retry_on_conflict : ℕ → IpPool → IpPool × Result A
  retry_on_conflict zero p = (p, err retries_exhausted)
  retry_on_conflict (suc k) p = settled k p (retry_on_conflict k (c.others k p)) (body p)

  -- With `j` attempts after this one, the state `u` that was read is turned into `q`, and `a` is the
  -- answer: no write, or a write of what the function gives on a state that others did not change.
  abbrev pub Applied : ℕ → IpPool → IpPool → A → Type 0
  Applied j u q a =
      ((body u ≡ done a) × (q ≡ u))
      ⊎ ((r : IpPool) × (body u ≡ write r a) × (c.others j u ≡ u) × (q ≡ written r))

  -- With `k` attempts to go the server has `p`; with `j` to go it has `q`, by what others write.
  pub data History : ℕ → IpPool → ℕ → IpPool → Type 0 where
    now : {k : ℕ} {p : IpPool} → History k p k p
    later : {k j : ℕ} {p q : IpPool} → History k (c.others k p) j q → History (suc k) p j q

  abbrev Succeeds : ℕ → IpPool → IpPool → A → Type 0
  Succeeds k p q a = (j : ℕ) × (u : IpPool) × History k p (suc j) u × Applied j u q a

  settled_lem :
      IsVersioned c
      → (k : ℕ) (p q : IpPool) (a : A) (again : IpPool × Result A)
      → (again ≡ (q, ok a) → Succeeds k (c.others k p) q a)
      → (t : Attempt A) → body p ≡ t
      → settled k p again t ≡ (q, ok a)
      → Succeeds (suc k) p q a
  unfolding settled
  settled_lem v k p q a again ih (fail e) b h = cc
  settled_lem v k p q a again ih (done x) b h = (k, p, now, inl (cc, cc))
  settled_lem v k p q a again ih (write r x) b h =
      by_cases (c.fails k) ((c.others k p).resource_version == p.resource_version) refl h
    where
      by_cases :
          (f e : Bool)
          → ((c.others k p).resource_version == p.resource_version) ≡ e
          → (if f
              then (c.others k p, err update_failed)
              else if e
              then (written r, ok x)
              else again)
            ≡ (q, ok a)
          → Succeeds (suc k) p q a
      by_cases true e h' g = cc
      by_cases false true h' g = (k, p, now, inr (r, cc, v k p ((==_iff _ _).0 h'), cc))
      by_cases false false h' g = let (j, u, past, applied) = ih g in (j, u, later past, applied)

  -- Suppose that the server's resource versions tell objects apart. An operation that succeeds
  -- within `k` attempts was run on a state that others came to by their writes; it made no write,
  -- or its write replaces that very state, which nobody has changed in between.
  pub retry_on_conflict_lem :
      IsVersioned c
      → (k : ℕ) (p q : IpPool) (a : A) → retry_on_conflict k p ≡ (q, ok a)
      → (j : ℕ) × (u : IpPool) × History k p (suc j) u × Applied j u q a
  unfolding retry_on_conflict
  retry_on_conflict_lem v zero p q a h = cc
  retry_on_conflict_lem v (suc k) p q a h =
      settled_lem v k p q a _ (retry_on_conflict_lem v k (c.others k p) q a) (body p) refl h
