-- ===== src/Multus/Networks.antt =====
-- pkg/multuscniconfig/utils.go: `ParsePodNetworkObjectName` and `ParsePodNetworkAnnotation`.
pub mod RoundTrip
use spiderpool.Prelude.{
  ℕ, Bool, true, false, not, ◌&&◌, ◌||◌, List, [], ◌∷◌, Option, none, some, Text, codes, text_eq,
  split_on, contains_code, ◌+◌, any, all, ltb, leb, ◌==◌, is_some, if◌then◌else◌,
}
use spiderpool.Net.Textual.{NetText}

-- `unicode.IsSpace`
abbrev pub is_space : ℕ → Bool
is_space c =
    (leb 9 c && leb c 13)
    || c == 32
    || c == 0x85
    || c == 0xa0
    || c == 0x1680
    || (leb 0x2000 c && leb c 0x200a)
    || c == 0x2028
    || c == 0x2029
    || c == 0x202f
    || c == 0x205f
    || c == 0x3000

abbrev pub trim_left : Text → Text
trim_left [] = []
trim_left (c ∷ s) = if is_space c then trim_left s else c ∷ s

abbrev pub trim_right : Text → Text
trim_right [] = []
trim_right (c ∷ s) =
    let rest = trim_right s in if is_space c && text_eq rest [] then [] else c ∷ rest

-- `strings.TrimSpace`
unfoldable pub trim_space : Text → Text
unfolding text_eq
trim_space s = trim_right (trim_left s)

abbrev pub is_alnum : ℕ → Bool
is_alnum c = (leb b'a' c && leb c b'z') || (leb b'0' c && leb c b'9')

-- What follows the first character: `([-a-z0-9]*[a-z0-9])?$`
abbrev pub label_rest : Text → Bool
label_rest [] = true
label_rest (c ∷ []) = is_alnum c
label_rest (c ∷ d ∷ s) = (is_alnum c || c == b'-') && label_rest (d ∷ s)

-- `^[a-z0-9]([-a-z0-9]*[a-z0-9])?$`, or no character
unfoldable pub is_label_or_empty : Text → Bool
is_label_or_empty [] = true
is_label_or_empty (c ∷ s) = is_alnum c && label_rest s

-- One of ` \t\n\v\f\r/`
abbrev pub is_forbidden : ℕ → Bool
is_forbidden c = (leb 9 c && leb c 13) || c == 32 || c == b'/'

-- The bytes of a character in UTF-8
abbrev pub utf8_width : ℕ → ℕ
utf8_width c = if ltb c 0x80 then 1 else if ltb c 0x800 then 2 else if ltb c 0x10000 then 3 else 4

-- `len` of a text
abbrev pub byte_length : Text → ℕ
byte_length [] = 0
byte_length (c ∷ s) = utf8_width c + byte_length s

-- The checks of the interface's name; IFNAMSIZ is 16, and counts bytes.
unfoldable pub is_interface_or_empty : Text → Bool
is_interface_or_empty s = not (ltb 15 (byte_length s)) && not (any is_forbidden s)

pub data NetworkError : Type 0 where
  empty_annotation json_failed failed_at_slash failed_at_at not_a_label bad_interface : NetworkError
  bad_mac bad_guid bad_ip nil_element : NetworkError

pub data Parsed {ℓ} (A : Type ℓ) : Type ℓ where
  ok : A → Parsed A
  err : NetworkError → Parsed A

infixl 5 ◌>>=◌
abbrev pub ◌>>=◌ {ℓ κ} : {A : Type ℓ} {B : Type κ} → Parsed A → (A → Parsed B) → Parsed B
ok a >>= f = f a
err e >>= f = err e

-- The namespace, the network and the interface of `<namespace>/<network>@<interface>`
pub record ObjectName : Type 0 where
  pub namespace : Text
  pub name : Text
  pub interface : Text

-- The namespace, and the text after the slash.
abbrev pub slash_items : List Text → Parsed (Text × Text)
slash_items (n ∷ []) = ok ([], n)
slash_items (ns ∷ n ∷ []) = ok (trim_space ns, n)
slash_items _ = err failed_at_slash

-- The network's name and the interface.
abbrev pub at_items : List Text → Parsed (Text × Text)
at_items (n ∷ []) = ok (trim_space n, [])
at_items (n ∷ i ∷ []) = ok (trim_space n, trim_space i)
at_items _ = err failed_at_at

abbrev pub check_items : Text → Text → Text → Parsed ObjectName
check_items ns n i =
    if not (is_label_or_empty ns && is_label_or_empty n)
    then err not_a_label
    else if not (is_interface_or_empty i)
    then err bad_interface
    else ok (record { namespace = ns; name = n; interface = i })

unfoldable pub parse_pod_network_object_name : Text → Parsed ObjectName
unfolding split_on trim_space is_label_or_empty is_interface_or_empty
parse_pod_network_object_name s = slash_items (split_on b'/' s) >>= λ p.
    at_items (split_on b'@' p.1) >>= λ q. check_items p.0 q.0 q.1

-- `NetworkSelectionElement`, its fields that are read
pub record NetworkElement : Type 0 where
  pub name : Text
  pub namespace : Text
  pub interface_request : Text
  pub mac_request : Text
  pub infiniband_guid_request : Text
  pub ip_request : List Text

abbrev pub of_object_name : ObjectName → NetworkElement
of_object_name o = record {
  name = o.name;
  namespace = o.namespace;
  interface_request = o.interface;
  mac_request = [];
  infiniband_guid_request = [];
  ip_request = [];
}

abbrev pub prepend_element : {A : Type 0} → A → Parsed (List A) → Parsed (List A)
prepend_element x (ok xs) = ok (x ∷ xs)
prepend_element x (err e) = err e

-- The comma-delimited list
unfoldable pub parse_items : List Text → Parsed (List (Option NetworkElement))
unfolding parse_pod_network_object_name
parse_items [] = ok []
parse_items (item ∷ items) = parse_pod_network_object_name (trim_space item) >>= λ o.
    prepend_element (some (of_object_name o)) (parse_items items)

-- One of `[`, `{`, `"`
abbrev pub is_json : Text → Bool
is_json s = any (λ c. c == b'[' || c == b'{' || c == b'"') (trim_space s)

module _ (n : NetText) (parse_mac : Text → Bool) where
  abbrev pub is_ip_request : Text → Bool
  is_ip_request ip =
      if contains_code b'/' ip then is_some (n.parse_cidr ip) else is_some (n.parse_ip ip)

  -- The body of the last loop; a nil element is dereferenced, which panics.
  unfoldable pub check_element : Text → Option NetworkElement → Parsed NetworkElement
  unfolding text_eq contains_code
  check_element default_namespace none = err nil_element
  check_element default_namespace (some e) =
      if not (text_eq e.mac_request []) && not (parse_mac e.mac_request)
      then err bad_mac
      else if not (text_eq e.infiniband_guid_request [])
          && not (parse_mac e.infiniband_guid_request)
      then err bad_guid
      else if not (all is_ip_request e.ip_request)
      then err bad_ip
      else ok (if text_eq e.namespace [] then record e { namespace = default_namespace } else e)

  unfoldable pub check_elements : Text → List (Option NetworkElement) → Parsed (List NetworkElement)
  unfolding check_element
  check_elements d [] = ok []
  check_elements d (e ∷ es) = check_element d e >>= λ f. prepend_element f (check_elements d es)

  -- `decode` is `json.Unmarshal` into the elements, none where it fails.
  unfoldable pub parse_pod_network_annotation :
      (Text → Option (List (Option NetworkElement))) → Text → Text → Parsed (List NetworkElement)
  unfolding split_on parse_items check_elements
  parse_pod_network_annotation decode [] default_namespace = err empty_annotation
  parse_pod_network_annotation decode (c ∷ s) default_namespace =
      let items : Parsed (List (Option NetworkElement)) =
        if is_json (c ∷ s)
        then elim (decode (c ∷ s)) [ none ↦ err json_failed | some es ↦ ok es ]
        else parse_items (split_on b',' (c ∷ s)) in
      items >>= check_elements default_namespace
