-- ===== src/Ipam/Preference/Wildcards.antt =====
-- The names that wildcards stand for.
use spiderpool.Prelude.{
  ◌≡◌, refl, sym, ap, ◌∙◌, subst, ℕ, Bool, true, false, ◌&&◌, ◌||◌, List, [], ◌∷◌, ◌++◌, Option,
  none, some, Text, text_eq, text_eq_iff, any, if◌then◌else◌, Bool-cases, Option-cases, inl, inr,
}
use spiderpool.Pool.Affinity.{has_wildcard_in_str, has_wildcard_in_slice}
use spiderpool.Ipam.Nics.{mem}
use spiderpool.Ipam.Preference.{
  Sourced, ok, err, ◌>>=◌, Pools, matching, expand_names, parse_wildcard_pool_name_list,
}

and_false : (a : Bool) → (a && false) ≡ false
and_false true = refl
and_false false = refl

with_it : (a m m' w : Bool) → m ≡ (m' && w) → (a ≡ true → w ≡ true) → (a || m) ≡ ((a || m') && w)
with_it true m m' w e h = sym (h refl)
with_it false m m' w e h = e

without : (a m m' w : Bool) → m ≡ (m' && w) → (a ≡ true → w ≡ false) → m ≡ ((a || m') && w)
without true m m' w e h = e ∙ rw (h refl) (and_false m')
without false m m' w e h = e

or_false : (b : Bool) → (b || false) ≡ b
or_false true = refl
or_false false = refl

-- Whether a pattern matches a name.
abbrev pub is_match : (Text → Text → Option Bool) → Text → Text → Bool
is_match match_name pattern n = elim (match_name pattern n) [ none ↦ false | some b ↦ b ]

-- Whether one of the given names stands for the name: itself, or as a pattern that matches it.
abbrev pub stands_for : (Text → Text → Option Bool) → List Text → Text → Text → Bool
stands_for match_name pools n s =
    if has_wildcard_in_str s then mem n pools && is_match match_name s n else text_eq n s

-- The members of a result
abbrev Members : Sourced (List Text) → (Text → Bool) → Type 0
Members (err e) p = Unit
Members (ok ns) p = (n : Text) → mem n ns ≡ p n

matching-Members :
    (match_name : Text → Text → Option Bool) (pattern : Text) (pools : List Text)
    → Members
        (matching match_name pattern pools)
        (λ n. mem n pools && is_match match_name pattern n)
unfolding matching
matching-Members match_name pattern [] = λ n. refl
matching-Members match_name pattern (x ∷ xs) = elim (Option-cases (match_name pattern x)) [
  | inl bad ↦ rw (matching, bad) tt
  | inr (b, good) ↦
      rw (matching, good)
        (add b (matching match_name pattern xs) good (matching-Members match_name pattern xs))
]
  where
    here :
        (n : Text) (b : Bool)
        → match_name pattern x ≡ some b
        → text_eq n x ≡ true
        → is_match match_name pattern n ≡ b
    here n b good e =
        ap (is_match match_name pattern) ((text_eq_iff n x).0 e) ∙ rw (is_match, good) refl

    add :
        (b : Bool) (o : Sourced (List Text))
        → match_name pattern x ≡ some b
        → Members o (λ n. mem n xs && is_match match_name pattern n)
        → Members
            (o >>= λ rest. ok (if b then x ∷ rest else rest))
            (λ n. mem n (x ∷ xs) && is_match match_name pattern n)
    add b (err e) good h = tt
    add true (ok ns) good h = λ n. with_it (text_eq n x) _ _ _ (h n) (here n true good)
    add false (ok ns) good h = λ n. without (text_eq n x) _ _ _ (h n) (here n false good)

mem-append : (n : Text) (xs ys : List Text) → mem n (xs ++ ys) ≡ (mem n xs || mem n ys)
mem-append n [] ys = refl
mem-append n (x ∷ xs) ys =
    ap (λ b. text_eq n x || b) (mem-append n xs ys) ∙ or_assoc (text_eq n x) _ _
  where
    or_assoc : (a b c : Bool) → (a || (b || c)) ≡ ((a || b) || c)
    or_assoc true b c = refl
    or_assoc false b c = refl

expand_names-Members :
    (match_name : Text → Text → Option Bool) (pools names : List Text)
    → Members (expand_names match_name pools names) (λ n. any (stands_for match_name pools n) names)
unfolding expand_names
expand_names-Members match_name pools [] = λ n. refl
expand_names-Members match_name pools (s ∷ names) =
    both (if has_wildcard_in_str s then matching match_name s pools else ok (s ∷ []))
      (expand_names match_name pools names) first (expand_names-Members match_name pools names)
  where
    first :
        Members
          (if has_wildcard_in_str s then matching match_name s pools else ok (s ∷ []))
          (λ n. stands_for match_name pools n s)
    first = elim (Bool-cases (has_wildcard_in_str s)) [
      | inl wild ↦ rw wild (matching-Members match_name s pools)
      | inr plain ↦ rw plain (λ n. or_false (text_eq n s))
    ]

    both :
        (a b : Sourced (List Text))
        → Members a (λ n. stands_for match_name pools n s)
        → Members b (λ n. any (stands_for match_name pools n) names)
        → Members
            (a >>= λ xs. b >>= λ ys. ok (xs ++ ys))
            (λ n. any (stands_for match_name pools n) (s ∷ names))
    both (err e) b h g = tt
    both (ok xs) (err e) h g = tt
    both (ok xs) (ok ys) h g = λ n. mem-append n xs ys ∙ rw (h n, g n) refl

-- The wildcards in a list of names are replaced by the pools that they match: a name is in the result
-- exactly if it is in the list, without a wildcard, or if it is the name of a pool of the version and
-- a pattern of the list matches it.
pub parse_wildcard_pool_name_list_lem :
    (p : Pools) (names pools ns : List Text) (version : ℕ)
    → has_wildcard_in_slice names ≡ true
    → p.list_version version ≡ some pools
    → parse_wildcard_pool_name_list p names version ≡ ok ns
    → (n : Text) → mem n ns ≡ any (stands_for p.match_name pools n) names
unfolding parse_wildcard_pool_name_list
parse_wildcard_pool_name_list_lem p names pools ns version wild listed h =
    subst (λ o. Members o (λ n. any (stands_for p.match_name pools n) names))
      (rw (parse_wildcard_pool_name_list, wild, listed) at h)
      (expand_names-Members p.match_name pools names)
