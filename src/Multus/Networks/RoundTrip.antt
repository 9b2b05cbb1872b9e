-- ===== src/Multus/Networks/RoundTrip.antt =====
-- What `ParsePodNetworkObjectName` reads back.
use spiderpool.Prelude.{
  ℕ, ◌≡◌, refl, Bool, true, false, ◌||◌, [], ◌∷◌, ◌++◌, Text, contains_code, split_on_one, any, all,
  ◌==◌, arith,
}
use spiderpool.Multus.Networks.{
  is_space, trim_right, trim_space, is_alnum, label_rest, is_label_or_empty, is_forbidden,
  is_interface_or_empty, ok, ObjectName, parse_pod_network_object_name,
}

-- A character of a label.
abbrev is_label_code : ℕ → Bool
is_label_code c = is_alnum c || c == b'-'

label_rest-all : (s : Text) → label_rest s ≡ true → all is_label_code s ≡ true
label_rest-all [] h = refl
label_rest-all (c ∷ []) h = rw h refl
label_rest-all (c ∷ d ∷ s) h = ground (arith, label_rest-all (d ∷ s))

is_label-all : (s : Text) → is_label_or_empty s ≡ true → all is_label_code s ≡ true
unfolding is_label_or_empty
is_label-all [] h = refl
is_label-all (c ∷ s) h = ground (arith, label_rest-all s)

label_code-apart :
    (c : ℕ)
    → is_label_code c ≡ true
    → ((b'/' == c) ≡ false) × ((b'@' == c) ≡ false) × (is_space c ≡ false)
label_code-apart c h = (ground arith, ground arith, ground arith)

all-apart :
    (s : Text)
    → all is_label_code s ≡ true
    → (contains_code b'/' s ≡ false) × (contains_code b'@' s ≡ false) × (any is_space s ≡ false)
unfolding contains_code
all-apart [] h = (refl, refl, refl)
all-apart (c ∷ s) h =
    let hc : is_label_code c ≡ true = ground arith in
    let hs : all is_label_code s ≡ true = ground arith in
    let (a, b, d) = label_code-apart c hc in
    let (a', b', d') = all-apart s hs in (rw (a, a') refl, rw (b, b') refl, rw (d, d') refl)

trim_right-id : (s : Text) → any is_space s ≡ false → trim_right s ≡ s
trim_right-id [] h = refl
trim_right-id (c ∷ s) h =
    let hc : is_space c ≡ false = ground arith in
    let hs : any is_space s ≡ false = ground arith in rw (hc, trim_right-id s hs) refl

trim_space-id : (s : Text) → any is_space s ≡ false → trim_space s ≡ s
unfolding trim_space
trim_space-id [] h = refl
trim_space-id (c ∷ s) h =
    let hc : is_space c ≡ false = ground arith in rw hc (trim_right-id (c ∷ s) h)

contains_code-append :
    (k : ℕ) (s t : Text) → contains_code k (s ++ t) ≡ (contains_code k s || contains_code k t)
unfolding contains_code
contains_code-append k [] t = refl
contains_code-append k (c ∷ s) t = ground (arith, contains_code-append k s t)

interface-no_slash : (s : Text) → any is_forbidden s ≡ false → contains_code b'/' s ≡ false
unfolding contains_code
interface-no_slash [] h = refl
interface-no_slash (c ∷ s) h = ground (arith, interface-no_slash s)

-- `<namespace>/<network>@<interface>`
abbrev pub print_object_name : ObjectName → Text
print_object_name o = o.namespace ++ b'/' ∷ (o.name ++ b'@' ∷ o.interface)

-- Printing a network object and parsing the text gives the object back, if its namespace and its
-- name are labels or empty, and its interface is an accepted name, of at most 15 bytes in UTF-8,
-- without `@` and without spaces.
pub parse_pod_network_object_name-print :
    (o : ObjectName)
    → is_label_or_empty o.namespace ≡ true
    → is_label_or_empty o.name ≡ true
    → is_interface_or_empty o.interface ≡ true
    → contains_code b'@' o.interface ≡ false
    → any is_space o.interface ≡ false
    → parse_pod_network_object_name (print_object_name o) ≡ ok o
unfolding parse_pod_network_object_name is_interface_or_empty contains_code
parse_pod_network_object_name-print o hns hn hi hat hsp =
    let forbidden : any is_forbidden o.interface ≡ false = ground arith in
    let (ns_slash, ns_at, ns_space) = all-apart o.namespace (is_label-all o.namespace hns) in
    let (n_slash, n_at, n_space) = all-apart o.name (is_label-all o.name hn) in
    let rest_slash : contains_code b'/' (o.name ++ b'@' ∷ o.interface) ≡ false =
      rw
        (
          contains_code-append b'/' o.name (b'@' ∷ o.interface),
          n_slash,
          interface-no_slash o.interface forbidden,
        )
        refl in
    rw
      (
        split_on_one b'/' o.namespace _ ns_slash rest_slash,
        split_on_one b'@' o.name o.interface n_at hat,
        trim_space-id o.namespace ns_space,
        trim_space-id o.name n_space,
        trim_space-id o.interface hsp,
        hns,
        hn,
        hi,
      )
      refl
