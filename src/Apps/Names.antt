-- ===== src/Apps/Names.antt =====
-- pkg/applicationcontroller/applicationinformers/utils.go: the name of an auto-created pool, and the
-- texts that stand for an application in labels and in the status of a subnet.
pub mod Length
pub mod RoundTrip
use spiderpool.Prelude.{
  ℕ, ◌+◌, ◌-◌, Bool, true, false, List, [], ◌∷◌, ◌++◌, Option, none, some, Text, codes, length,
  take, ltb, split_on, if◌then◌else◌,
}
use spiderpool.Pool.Affinity.{cut}

-- `k8svalidation.DNS1123SubdomainMaxLength`
abbrev pub max_name_length : ℕ
max_name_length = 253

abbrev pub random_length : ℕ
random_length = 5

abbrev pub last_part : List Text → Text
last_part [] = []
last_part (w ∷ []) = w
last_part (w ∷ v ∷ vs) = last_part (v ∷ vs)

-- The end of a uid, of at most five characters
unfoldable pub last_one : Text → Text
unfolding split_on
last_one uid =
    let w = last_part (split_on b'-' uid) in
    if ltb random_length (length w) then take random_length w else w

abbrev pub max_custom_name_length : Text → ℕ
max_custom_name_length last = max_name_length - length last - 7

-- The name of the controller as far as there is room; none stands for the panic of a slice with a
-- negative end.
unfoldable pub shortened : Text → Text → Text → Option Text
shortened controller if_name last =
    if ltb (max_custom_name_length last) (length (controller ++ if_name))
    then (if ltb (max_custom_name_length last) (length if_name)
        then none
        else some (take (max_custom_name_length last - length if_name) controller))
    else some controller

-- The format `auto%d-%s-%s-%s`; `version` is 4 or 6, and `to_lower` is `strings.ToLower`.
abbrev pub join_name : (Text → Text) → ℕ → Text → Text → Text → Text
join_name to_lower version controller if_name last =
    codes "auto"
    ++ ((b'0' + version)
        ∷ b'-'
        ∷ (to_lower controller ++ (b'-' ∷ (to_lower if_name ++ (b'-' ∷ to_lower last)))))

unfoldable pub auto_pool_name : (Text → Text) → Text → ℕ → Text → Text → Option Text
unfolding last_one shortened
auto_pool_name to_lower controller version if_name uid =
    elim (shortened controller if_name (last_one uid)) [
      | none ↦ none
      | some c ↦ some (join_name to_lower version c if_name (last_one uid))
    ]

-- The separator of the parts of an application, `_`
abbrev pub sep : ℕ
sep = 0x5f

abbrev pub gv_text : Text × Text × Bool → Text
gv_text (first, second, true) = first ++ (sep ∷ second)
gv_text (first, second, false) = first

unfoldable pub application_label_gv : Text → Text
unfolding cut
application_label_gv api_version = gv_text (cut b'/' api_version)

-- `types.AppNamespacedName`
pub record AppNamespacedName : Type 0 where
  pub api_version : Text
  pub kind : Text
  pub namespace : Text
  pub name : Text

unfoldable pub application_namespaced_name : AppNamespacedName → Text
unfolding cut
application_namespaced_name a =
    gv_text (cut b'/' a.api_version) ++ (sep ∷ (a.kind ++ (sep ∷ (a.namespace ++ (sep ∷ a.name)))))

-- `group_version` is `GroupVersion.String` of apimachinery; none is a text that does not match.
module _ (group_version : Text → Text → Text) where
  abbrev pub gv_of_parts : List Text → Option Text
  gv_of_parts (v ∷ []) = some (group_version [] v)
  gv_of_parts (g ∷ v ∷ []) = some (group_version g v)
  gv_of_parts _ = none

  unfoldable pub parse_application_gv_str : Text → Option Text
  unfolding split_on
  parse_application_gv_str s = gv_of_parts (split_on sep s)

  abbrev pub app_of : Text → Text → Text → Text → AppNamespacedName
  app_of api_version kind namespace name = record {
    api_version = api_version;
    kind = kind;
    namespace = namespace;
    name = name;
  }

  abbrev pub app_of_parts : List Text → Option AppNamespacedName
  app_of_parts (v ∷ k ∷ ns ∷ n ∷ []) = some (app_of (group_version [] v) k ns n)
  app_of_parts (g ∷ v ∷ k ∷ ns ∷ n ∷ []) = some (app_of (group_version g v) k ns n)
  app_of_parts _ = none

  unfoldable pub parse_application_namespaced_name : Text → Option AppNamespacedName
  unfolding split_on
  parse_application_namespaced_name s = app_of_parts (split_on sep s)
