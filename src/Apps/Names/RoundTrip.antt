-- ===== src/Apps/Names/RoundTrip.antt =====
-- pkg/applicationcontroller/applicationinformers/utils.go: an application is read back from its text.
use mathlib.Core.List.{append_assoc}
use spiderpool.Prelude.{
  ◌≡◌, refl, sym, ap, false, [], ◌∷◌, ◌++◌, some, Text, text_eq, contains_code, split_on,
  split_on-append, split_on_none, contains_code-append, Bool-cases, inl, inr, arith,
}
use spiderpool.Pool.Affinity.{cut, cut-none, cut-some}
use spiderpool.Apps.Names.{
  sep, AppNamespacedName, application_namespaced_name, app_of, parse_application_namespaced_name,
}

-- `GroupVersion.String`: the version alone without a group.
pub record IsGroupVersion (group_version : Text → Text → Text) : Type 0 where
  pub core : (v : Text) → group_version [] v ≡ v
  pub grouped : (g v : Text) → text_eq g [] ≡ false → group_version g v ≡ g ++ b'/' ∷ v

no_sep :
    (x y : Text)
    → contains_code sep (x ++ b'/' ∷ y) ≡ false
    → (contains_code sep x ≡ false) × (contains_code sep y ≡ false)
unfolding contains_code
no_sep x y h = let e = contains_code-append sep x (b'/' ∷ y) in (ground arith, ground arith)

module _ (group_version : Text → Text → Text) (laws : IsGroupVersion group_version) where
  split_tail :
      (a : AppNamespacedName)
      → contains_code sep a.kind ≡ false
      → contains_code sep a.namespace ≡ false
      → contains_code sep a.name ≡ false
      → split_on sep (a.kind ++ (sep ∷ (a.namespace ++ (sep ∷ a.name))))
        ≡ a.kind ∷ a.namespace ∷ a.name ∷ []
  split_tail a k ns n =
      rw
        (
          split_on-append sep a.kind (a.namespace ++ (sep ∷ a.name)) k,
          split_on-append sep a.namespace a.name ns,
          split_on_none sep a.name n,
        )
        refl

  -- If no part of an application has an underscore, and its API version does not begin with a slash
  -- and is not empty, then parsing its text gives the application back.
  pub parse-application_namespaced_name :
      (a : AppNamespacedName)
      → text_eq (cut b'/' a.api_version).0 [] ≡ false
      → contains_code sep a.api_version ≡ false
      → contains_code sep a.kind ≡ false
      → contains_code sep a.namespace ≡ false
      → contains_code sep a.name ≡ false
      → parse_application_namespaced_name group_version (application_namespaced_name a) ≡ some a
  unfolding parse_application_namespaced_name application_namespaced_name
  parse-application_namespaced_name a filled v k ns n =
      let tail = a.kind ++ (sep ∷ (a.namespace ++ (sep ∷ a.name))) in
      elim (Bool-cases (contains_code b'/' a.api_version)) [
        | inr core ↦
            rw
              (
                cut-none b'/' a.api_version core,
                split_on-append sep a.api_version tail v,
                split_tail a k ns n,
                laws.core a.api_version,
              )
              refl
        | inl grouped ↦
            let (x, y, p, q) = cut-some b'/' a.api_version grouped in
            let both = rw q at v in
            let (gx, gy) = no_sep x y both in
            rw
              (
                p,
                append_assoc x (sep ∷ y) (sep ∷ tail),
                split_on-append sep x (y ++ (sep ∷ tail)) gx,
                split_on-append sep y tail gy,
                split_tail a k ns n,
                laws.grouped x y (rw p at filled),
              )
              (ap (λ (t : Text). some (app_of group_version t a.kind a.namespace a.name)) (sym q))
      ]
