-- ===== src/Base/Int.antt =====
-- Python's integers, as far as the code adds and subtracts natural numbers.
use Prim.Native.Nat.{ℕ, suc, ◌+◌, ◌-◌}
use pysnmp.Base.Tests.{if◌then◌else◌, leb}

pub data ℤ : Type 0 where
  pos negsuc : ℕ → ℤ

-- Adding and subtracting a natural number.
abbrev pub add_nat : ℤ → ℕ → ℤ
add_nat (pos m) n = pos (m + n)
add_nat (negsuc m) n = if leb n m then negsuc (m - n) else pos (n - suc m)

abbrev pub sub_nat : ℤ → ℕ → ℤ
sub_nat (pos m) n = if leb n m then pos (m - n) else negsuc (n - suc m)
sub_nat (negsuc m) n = negsuc (m + n)
