-- ===== src/Apps/Names/Length.antt =====
-- pkg/applicationcontroller/applicationinformers/utils.go, `AutoPoolName`: how long a name is.
use spiderpool.Prelude.{
  ℕ, suc, zero, ◌+◌, ◌-◌, ◌≤◌, ◌≡◌, refl, [], ◌∷◌, ◌++◌, some, Text, length, take, length-append,
  ltb, Bool-cases, Option-cases, inl, inr, arith, split_on,
}
use spiderpool.Apps.Names.{
  max_name_length, max_custom_name_length, last_one, last_part, shortened, join_name,
  auto_pool_name,
}

length-take : (k : ℕ) (s : Text) → k ≤ length s → length (take k s) ≡ k
length-take zero s h = refl
length-take (suc k) [] h = absurd (omega arith)
length-take (suc k) (c ∷ s) h = omega (arith, length-take k s (omega arith))

length-last_one : (uid : Text) → length (last_one uid) ≤ 5
unfolding last_one
length-last_one uid =
    let w = last_part (split_on b'-' uid) in
    elim (Bool-cases (ltb 5 (length w))) [
      | inl long ↦ rw long (omega (arith, length-take 5 w (ground arith)))
      | inr short ↦ rw short (ground arith)
    ]

-- The controller's part and the interface together
shortened-length :
    (controller if_name last c : Text)
    → shortened controller if_name last ≡ some c
    → (length c + length if_name ≤ max_custom_name_length last)
      × (max_custom_name_length last ≤ length controller + length if_name
          → length c + length if_name ≡ max_custom_name_length last)
unfolding shortened
shortened-length controller if_name last c h =
    let room = max_custom_name_length last in
    elim (Bool-cases (ltb room (length (controller ++ if_name)))) [
      | inr fits ↦
          let same : controller ≡ c = cc (rw fits at h) in
          let whole = length-append controller if_name in
          rw (← same) (ground arith, λ e. ground arith)
      | inl long ↦ elim (Bool-cases (ltb room (length if_name))) [
        | inl none_left ↦ cc (rw (long, none_left) at h)
        | inr left ↦
            let same : take (room - length if_name) controller ≡ c = cc (rw (long, left) at h) in
            let whole = length-append controller if_name in
            let cut = length-take (room - length if_name) controller (ground arith) in
            rw (← same, cut) (ground arith, λ e. ground arith)
      ]
    ]

module _ (to_lower : Text → Text) (keeps : (s : Text) → length (to_lower s) ≡ length s) where
  join_name-length :
      (version : ℕ) (c if_name last : Text)
      → length (join_name to_lower version c if_name last)
        ≡ length c + length if_name + length last + 8
  join_name-length version c if_name last = omega (
    arith,
    length-append (to_lower c) (b'-' ∷ (to_lower if_name ++ (b'-' ∷ to_lower last))),
    length-append (to_lower if_name) (b'-' ∷ to_lower last),
    keeps c,
    keeps if_name,
    keeps last,
  )

  -- The name of an auto-created pool has at most one character more than a name may have, and it has
  -- that many where the controller's name, the interface and the end of the uid have 246 characters
  -- or more: the format has three dashes, two are counted.
  pub length-auto_pool_name :
      (controller if_name uid name : Text) (version : ℕ)
      → auto_pool_name to_lower controller version if_name uid ≡ some name
      → (length name ≤ max_name_length + 1)
        × (246 ≤ length controller + length if_name + length (last_one uid)
            → length name ≡ max_name_length + 1)
  unfolding auto_pool_name
  length-auto_pool_name controller if_name uid name version h =
      elim (Option-cases (shortened controller if_name (last_one uid))) [
        | inl bad ↦ cc (rw (auto_pool_name, bad) at h)
        | inr (c, e) ↦
            let made : join_name to_lower version c if_name (last_one uid) ≡ name =
              cc (rw (auto_pool_name, e) at h) in
            let whole = join_name-length version c if_name (last_one uid) in
            let (most, exact) = shortened-length controller if_name (last_one uid) c e in
            let short = length-last_one uid in
            rw (← made) (omega arith, λ long. (let all = exact (omega arith) in omega arith))
      ]
