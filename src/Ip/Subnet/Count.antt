-- ===== src/Ip/Subnet/Count.antt =====
-- pkg/ip/subnet.go: the ranges of a pool are disjoint, and `TotalIP` counts their addresses.
use spiderpool.Prelude.{
  ℕ, zero, suc, ◌+◌, ◌-◌, ◌<◌, ◌≤◌, ◌≡◌, refl, sym, Bool, true, false, ◌&&◌, ◌||◌, List, [], ◌∷◌,
  ◌++◌, leb, arith, if◌then◌else◌, All, All-append, min,
}
use spiderpool.Ip.Subnet.{Range, cut, remove_range, remove_exclude_ip_range, total_ip}
use spiderpool.Ip.Subnet.Cover.{inside, covers, IsProper, Apart, AreDisjoint}

-- How many numbers below the bound pass the test.
abbrev pub tally : ℕ → (ℕ → Bool) → ℕ
tally zero p = 0
tally (suc n) p = (if p n then 1 else 0) + tally n p

tally-inside : (n s e : ℕ) → tally n (λ v. leb s v && leb v e) ≡ min n (e + 1) - s
tally-inside zero s e = omega arith
tally-inside (suc n) s e = ground (arith, tally-inside n s e)

tally-or :
    (n : ℕ) (p q : ℕ → Bool)
    → ((v : ℕ) → p v ≡ true → q v ≡ false)
    → tally n (λ v. p v || q v) ≡ tally n p + tally n q
tally-or zero p q h = refl
tally-or (suc n) p q h = ground (arith, tally-or n p q h, h n)

tally-false : (n : ℕ) → tally n (λ v. false) ≡ 0
tally-false zero = refl
tally-false (suc n) = omega (arith, tally-false n)

Apart-covers :
    (v : ℕ) (r : Range) (rs : List Range)
    → All (Apart r) rs
    → inside v r ≡ true
    → covers v rs ≡ false
Apart-covers v r [] h k = refl
Apart-covers v r (s ∷ rs) h k = ground (arith, Apart-covers v r rs h.1 k)

-- For disjoint ranges whose ends are in order, `TotalIP` is the number of their addresses, counted
-- up to any bound above them.
total_ip_lem :
    (n : ℕ) (rs : List Range)
    → AreDisjoint rs
    → All IsProper rs
    → All (λ r. r.end < n) rs
    → total_ip rs ≡ tally n (λ v. covers v rs)
unfolding total_ip
total_ip_lem n [] d p b = sym (tally-false n)
total_ip_lem n (r ∷ rs) d p b = omega (
  arith,
  tally-inside n r.start r.end,
  tally-or n (λ v. inside v r) (λ v. covers v rs) (λ v. Apart-covers v r rs d.0),
  total_ip_lem n rs d.1 p.1 b.1,
)

cut-IsProper : (x e : Range) → IsProper e → All IsProper (cut x e)
cut-IsProper x e p = ground arith

cut-Apart : (x e r : Range) → IsProper e → Apart r e → All (Apart r) (cut x e)
cut-Apart x e r p a = ground arith

cut-AreDisjoint : (x e : Range) → IsProper x → AreDisjoint (cut x e)
cut-AreDisjoint x e p = ground arith

-- Ranges inside disjoint ranges.
AreDisjoint-append :
    (xs ys : List Range)
    → AreDisjoint xs
    → AreDisjoint ys
    → All (λ x. All (Apart x) ys) xs
    → AreDisjoint (xs ++ ys)
AreDisjoint-append [] ys d e a = e
AreDisjoint-append (x ∷ xs) ys d e a =
    (All-append (Apart x) xs ys d.0 a.0, AreDisjoint-append xs ys d.1 e a.1)

remove_range-IsProper :
    (x : Range) (es : List Range) → All IsProper es → All IsProper (remove_range es x)
unfolding remove_range
remove_range-IsProper x [] p = tt
remove_range-IsProper x (e ∷ es) p =
    All-append IsProper (cut x e) _ (cut-IsProper x e p.0) (remove_range-IsProper x es p.1)

remove_range-Apart :
    (x r : Range) (es : List Range)
    → All IsProper es
    → All (Apart r) es
    → All (Apart r) (remove_range es x)
unfolding remove_range
remove_range-Apart x r [] p a = tt
remove_range-Apart x r (e ∷ es) p a =
    All-append (Apart r) (cut x e) _ (cut-Apart x e r p.0 a.0) (remove_range-Apart x r es p.1 a.1)

shrink :
    (e c : Range) (rs : List Range)
    → e.start ≤ c.start
    → c.end ≤ e.end
    → All (Apart e) rs
    → All (Apart c) rs
shrink e c [] l u a = tt
shrink e c (r ∷ rs) l u a = (omega (arith, a.0), shrink e c rs l u a.1)

cut-far :
    (x e : Range) (rs : List Range)
    → IsProper e
    → All (Apart e) rs
    → All (λ c. All (Apart c) rs) (cut x e)
cut-far x e rs p a = ground (
  arith,
  shrink e (record e { end = x.start - 1 }) rs,
  shrink e (record e { start = x.end + 1 }) rs,
)

remove_range-AreDisjoint :
    (x : Range) (es : List Range)
    → IsProper x
    → All IsProper es
    → AreDisjoint es
    → AreDisjoint (remove_range es x)
unfolding remove_range
remove_range-AreDisjoint x [] q p d = tt
remove_range-AreDisjoint x (e ∷ es) q p d =
    AreDisjoint-append (cut x e) (remove_range es x) (cut-AreDisjoint x e q)
      (remove_range-AreDisjoint x es q p.1 d.1)
      (cut-far x e (remove_range es x) p.0 (remove_range-Apart x e es p.1 d.0))

-- Taking out ranges whose ends are in order keeps disjoint ranges disjoint and their ends in
-- order.
remove_exclude_ip_range-AreDisjoint :
    (base xs : List Range)
    → All IsProper xs
    → All IsProper base
    → AreDisjoint base
    → AreDisjoint (remove_exclude_ip_range base xs) × All IsProper (remove_exclude_ip_range base xs)
unfolding remove_exclude_ip_range
remove_exclude_ip_range-AreDisjoint base [] q p d = (d, p)
remove_exclude_ip_range-AreDisjoint base (x ∷ xs) q p d =
    remove_exclude_ip_range-AreDisjoint (remove_range base x) xs q.1
      (remove_range-IsProper x base p) (remove_range-AreDisjoint x base q.0 p d)

-- An excluded range whose ends are not in order and both lie in an included range takes nothing
-- out of that range: the addresses stay as they are, and `TotalIP` is larger by the number of
-- those strictly between the two ends.
pub remove_reversed :
    (r x : Range)
    → r.start ≤ x.end
    → x.end < x.start
    → x.start ≤ r.end
    → ((v : ℕ) → covers v (remove_exclude_ip_range (r ∷ []) (x ∷ [])) ≡ inside v r)
      × (total_ip (remove_exclude_ip_range (r ∷ []) (x ∷ []))
          ≡ total_ip (r ∷ []) + (x.start - x.end - 1))
unfolding remove_exclude_ip_range remove_range total_ip
remove_reversed r x a b c = (λ v. ground arith, ground arith)
