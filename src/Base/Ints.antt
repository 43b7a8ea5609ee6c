-- ===== src/Base/Ints.antt =====
-- Go's signed integers, where a decoded number may be negative; the library's names, on the native ℕ.
use be_miawai.Base.Tests.{ltb, ◌==◌, if◌then◌else◌}
use Prim.Native.Nat.{ℕ, ◌<◌}
use native.Mathlib.Omega.{arith}
use mathlib.Core.Bool.{Bool, true, false, ◌||◌}

-- `negsuc n` is `-(n + 1)`.
pub data ℤ : Type 0 where
  pos : ℕ → ℤ
  negsuc : ℕ → ℤ

-- `n > z`
unfoldable pub exceeds : ℕ → ℤ → Bool
exceeds n (pos m) = ltb m n
exceeds n (negsuc m) = true

-- `z < 0`
unfoldable pub is_negative : ℤ → Bool
is_negative (pos m) = false
is_negative (negsuc m) = true

-- `if limit <= 0 || limit > max { limit = fallback }`
unfoldable pub limit_or : ℕ → ℕ → ℤ → ℕ
limit_or max fallback (negsuc n) = fallback
limit_or max fallback (pos n) = if n == 0 || ltb max n then fallback else n

-- A limit of zero rows is never used.
pub limit_or_pos : (max fallback : ℕ) (z : ℤ) → 0 < fallback → 0 < limit_or max fallback z
unfolding limit_or
limit_or_pos max fallback (negsuc n) h = h
limit_or_pos max fallback (pos n) h = ground (arith, h)
