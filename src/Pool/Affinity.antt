-- ===== src/Pool/Affinity.antt =====
-- pkg/ippoolmanager/utils.go: the pod affinity of an auto-created pool, and wildcards in pool names.
use spiderpool.Prelude.{
  ℕ, ◌≡◌, refl, ap, ◌∙◌, Bool, true, false, ◌&&◌, ◌||◌, List, [], ◌∷◌, ◌++◌, Option, none, some,
  Text, codes, text_eq, text_eq_refl, contains_code, all, ◌==◌, ==_iff, lookup, if◌then◌else◌,
  arith, Bool-cases, inl, inr,
}

-- The fields of `types.PodTopController` that are read
pub record PodTopController : Type 0 where
  pub api_version : Text
  pub kind : Text
  pub namespace : Text
  pub name : Text

-- `strings.Cut` at one character: what is before, what is after, and whether it is there.
unfoldable pub cut : ℕ → Text → Text × Text × Bool
cut sep [] = ([], [], false)
cut sep (c ∷ s) =
    let (before, after, found) = cut sep s in
    if c == sep then ([], s, true) else (c ∷ before, after, found)

abbrev pub prefix : Text
prefix = codes "ipam.spidernet.io"

abbrev pub app_api_group : Text
app_api_group = prefix ++ codes "/app-api-group"

abbrev pub app_api_version : Text
app_api_version = prefix ++ codes "/app-api-version"

abbrev pub app_kind : Text
app_kind = prefix ++ codes "/app-kind"

abbrev pub app_namespace : Text
app_namespace = prefix ++ codes "/app-namespace"

abbrev pub app_name : Text
app_name = prefix ++ codes "/app-name"

abbrev pub Labels : Type 0
Labels = List (Text × Text)

-- The `labels.Set` of both functions
abbrev pub set_of : Text → Text → PodTopController → Labels
set_of group version c =
    (app_api_group, group)
    ∷ (app_api_version, version)
    ∷ (app_kind, c.kind)
    ∷ (app_namespace, c.namespace)
    ∷ (app_name, c.name)
    ∷ []

abbrev new_set : PodTopController → Text × Text × Bool → Labels
new_set c (first, second, true) = set_of first second c
new_set c (first, second, false) = set_of [] first c

unfoldable pub new_auto_pool_pod_affinity : PodTopController → Labels
unfolding cut
new_auto_pool_pod_affinity c = new_set c (cut b'/' c.api_version)

-- `MatchLabels[k]`, the empty text if there is none
abbrev pub label : Option Text → Text
label none = []
label (some v) = v

abbrev pub matches : Labels → Labels → Bool
matches have want = all (λ (kv : Text × Text). text_eq (label (lookup kv.0 have)) kv.1) want

unfoldable pub is_match_auto_pool_affinity : Option Labels → PodTopController → Bool
unfolding cut lookup
is_match_auto_pool_affinity none c = false
is_match_auto_pool_affinity (some have) c =
    let (group, version, found) = cut b'/' c.api_version in matches have (set_of group version c)

unfoldable pub has_wildcard_in_str : Text → Bool
unfolding contains_code
has_wildcard_in_str s =
    if contains_code b'?' s
    then true
    else if contains_code b'*' s
    then true
    else contains_code b'[' s && contains_code b']' s

unfoldable pub has_wildcard_in_slice : List Text → Bool
unfolding has_wildcard_in_str
has_wildcard_in_slice [] = false
has_wildcard_in_slice (s ∷ arr) = if has_wildcard_in_str s then true else has_wildcard_in_slice arr

and_true : (a b : Bool) → (a && (b && true)) ≡ (a && b)
and_true true true = refl
and_true true false = refl
and_true false b = refl

-- The sets of one controller match exactly if they have one group and one version.
matches-set_of :
    (g v h w : Text) (c : PodTopController)
    → matches (set_of g v c) (set_of h w c) ≡ (text_eq g h && text_eq v w)
unfolding lookup text_eq
matches-set_of g v h w c =
    rw (text_eq_refl c.kind, text_eq_refl c.namespace, text_eq_refl c.name)
      (and_true (text_eq g h) (text_eq v w))

pub cut-none : (sep : ℕ) (s : Text) → contains_code sep s ≡ false → cut sep s ≡ (s, [], false)
unfolding cut contains_code
cut-none sep [] h = refl
cut-none sep (c ∷ s) h =
    let ne : (c == sep) ≡ false = ground arith in
    let rest : contains_code sep s ≡ false = ground arith in rw (ne, cut-none sep s rest) refl

pub cut-some :
    (sep : ℕ) (s : Text)
    → contains_code sep s ≡ true
    → (a b : Text) × (cut sep s ≡ (a, b, true)) × (s ≡ a ++ sep ∷ b)
unfolding cut contains_code
cut-some sep [] h = cc
cut-some sep (c ∷ s) h = elim (Bool-cases (c == sep)) [
  | inl e ↦ ([], s, rw e refl, ap (λ x. x ∷ s) ((==_iff c sep).0 e))
  | inr ne ↦
      let rest : contains_code sep s ≡ true = ground arith in
      let (a, b, p, q) = cut-some sep s rest in (c ∷ a, b, rw (ne, p) refl, ap (λ t. c ∷ t) q)
]

-- An auto-created pool matches the controller that it is made for exactly if the API version of the
-- controller has a group, or is empty.
pub is_match-new :
    (c : PodTopController)
    → is_match_auto_pool_affinity (some (new_auto_pool_pod_affinity c)) c
      ≡ (contains_code b'/' c.api_version || text_eq c.api_version [])
unfolding text_eq is_match_auto_pool_affinity new_auto_pool_pod_affinity
is_match-new c = elim (Bool-cases (contains_code b'/' c.api_version)) [
  | inl grouped ↦
      let (a, b, p, q) = cut-some b'/' c.api_version grouped in
      rw (p, grouped) (matches-set_of a b a b c ∙ rw (text_eq_refl a, text_eq_refl b) refl)
  | inr core ↦
      rw (cut-none b'/' c.api_version core, core)
        (matches-set_of [] c.api_version c.api_version [] c ∙ by_text c.api_version)
]
  where
    by_text : (s : Text) → (text_eq [] s && text_eq s []) ≡ text_eq s []
    by_text [] = refl
    by_text (x ∷ s) = refl
