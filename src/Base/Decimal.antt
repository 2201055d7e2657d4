-- ===== src/Base/Decimal.antt =====
-- Integers and `fmt.Sprintf("%d", i)`.
use Prim.Native.Nat.{ℕ, zero, suc, ◌+◌, ◌/◌, ◌%◌}
use mathlib.Core.List.{[], ◌∷◌, ◌++◌}
use smart_web.Base.Tests.{ltb, if◌then◌else◌}
use smart_web.Base.Text.{Bytes}

-- `negsuc n` is -(n + 1).
pub data ℤ : Type 0 where
  pos : ℕ → ℤ
  negsuc : ℕ → ℤ

digits : ℕ → ℕ → Bytes
digits zero n = []
digits (suc fuel) n =
    let front = digits fuel (n / 10) in
    if ltb n 10 then (b'0' + n) ∷ [] else front ++ (b'0' + n % 10) ∷ []

unfoldable pub format_d : ℤ → Bytes
unfolding digits
format_d (pos n) = digits (suc n) n
format_d (negsuc n) = b'-' ∷ digits (suc (suc n)) (suc n)
