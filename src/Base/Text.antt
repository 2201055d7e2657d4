-- ===== src/Base/Text.antt =====
-- Go's strings: lists of bytes, with the functions of package `strings` that the program calls.
use Prim.Native.Nat.{ℕ}
use Prim.Native.Char.{code}
use Prim.Native.String.{String}
use mathlib.Core.Path.{◌≡◌, refl, ap}
use mathlib.Core.Logic.{◌↔◌, ◌≢◌, inl, inr}
use mathlib.Core.Bool.{Bool, true, false, ◌&&◌, ◌||◌}
use mathlib.Core.List.{List, [], ◌∷◌, ◌++◌}
use native.Mathlib.Omega.{arith}
use smart_web.Base.Lists.{All}
use smart_web.Base.Tests.{Bool-cases, ==_iff, ◌==◌, if◌then◌else◌}

abbrev pub Bytes : Type 0
Bytes = List ℕ

-- the code points of a literal; these are its bytes when the text is ASCII
abbrev pub codes : String → Bytes
codes String.[] = []
codes (String.◌∷◌ c s) = code c ∷ codes s

-- `s == ""`
abbrev pub is_empty : Bytes → Bool
is_empty [] = true
is_empty (c ∷ s) = false

pub append_cons_ne : (p rest : Bytes) (c : ℕ) → p ++ c ∷ rest ≢ []
append_cons_ne [] rest c e = cc
append_cons_ne (d ∷ p) rest c e = cc

pub is_empty_ne : (s : Bytes) → s ≢ [] → is_empty s ≡ false
is_empty_ne [] h = absurd (h refl)
is_empty_ne (c ∷ s) h = refl

-- `a == b` on strings
unfoldable pub equal : Bytes → Bytes → Bool
equal [] t = is_empty t
equal (x ∷ s) [] = false
equal (x ∷ s) (y ∷ t) = if x == y then equal s t else false

pub equal_iff : (s t : Bytes) → (equal s t ≡ true) ↔ (s ≡ t)
unfolding equal
equal_iff [] [] = ground arith
equal_iff [] (y ∷ t) = ground arith
equal_iff (x ∷ s) [] = ground arith
equal_iff (x ∷ s) (y ∷ t) = ground (arith, equal_iff s t)

pub equal_ne : (s t : Bytes) → s ≢ t → equal s t ≡ false
equal_ne s t h = ground (arith, equal_iff s t)

-- `strings.HasPrefix`
unfoldable pub has_prefix : Bytes → Bytes → Bool
has_prefix s [] = true
has_prefix [] (c ∷ p) = false
has_prefix (b ∷ s) (c ∷ p) = b == c && has_prefix s p

-- `strings.ContainsRune` for a set of ASCII characters
unfoldable pub contains : Bytes → ℕ → Bool
contains [] r = false
contains (c ∷ cs) r = r == c || contains cs r

-- What holds of every character of a set holds of each that is tested to be in it.
pub contains-All :
    (P : ℕ → Type 0) (chars : Bytes) (c : ℕ) → contains chars c ≡ true → All P chars → P c
unfolding contains
contains-All P [] c h _ = cc
contains-All P (d ∷ chars) c h (p, ps) = elim (Bool-cases (c == d)) [
  | inl e ↦ rw ((==_iff c d).0 e) p
  | inr e ↦ contains-All P chars c (rw e at h) ps
]

pub contains-ne :
    (chars : Bytes) (c d : ℕ) → contains chars c ≡ false → contains chars d ≡ true → c ≢ d
contains-ne chars c d h k e = cc (ap (contains chars) e)

-- `strings.Replace(s, old, new, -1)` for one ASCII byte `old`
unfoldable pub replace : ℕ → Bytes → Bytes → Bytes
replace old new [] = []
replace old new (c ∷ s) = (if c == old then new else c ∷ []) ++ replace old new s

-- `strings.Join`
unfoldable pub join_texts : Bytes → List Bytes → Bytes
join_texts sep [] = []
join_texts sep (t ∷ []) = t
join_texts sep (t ∷ u ∷ ts) = t ++ sep ++ join_texts sep (u ∷ ts)
