-- ===== src/Ip/Result.antt =====
-- pkg/ip/errors.go, and the outcomes of the functions of pkg/ip.
use spiderpool.Prelude.{Bool, true, false, ◌≡◌, ◌⊎◌, refl, inl, inr}

pub data IpError : Type 0 where
  invalid_ip_version invalid_ip_range_format invalid_ip_format : IpError
  invalid_cidr_format invalid_route_format invalid_ip parse_failed : IpError

-- `diverge` is a loop that has used up its fuel.
pub data Result {ℓ} (A : Type ℓ) : Type ℓ where
  ok : A → Result A
  err : IpError → Result A
  diverge : Result A

infixl 5 ◌>>=◌ ◌>>◌
abbrev pub ◌>>=◌ {ℓ κ} : {A : Type ℓ} {B : Type κ} → Result A → (A → Result B) → Result B
ok a >>= f = f a
err e >>= f = err e
diverge >>= f = diverge

abbrev pub ◌>>◌ {ℓ} : {B : Type ℓ} → Result (Unit {0}) → Result B → Result B
m >> k = m >>= λ _. k

-- An `if` that returns an error.
abbrev pub refuse_if : Bool → IpError → Result (Unit {0})
refuse_if true e = err e
refuse_if false e = ok tt

abbrev pub Accepts : Result (Unit {0}) → Type 0
Accepts r = r ≡ ok tt

pub Result-cases {ℓ} :
    {A : Type ℓ} (r : Result A)
    → ((a : A) × (r ≡ ok a)) ⊎ (((e : IpError) × (r ≡ err e)) ⊎ (r ≡ diverge))
Result-cases (ok a) = inl (a, refl)
Result-cases (err e) = inr (inl (e, refl))
Result-cases diverge = inr (inr refl)
