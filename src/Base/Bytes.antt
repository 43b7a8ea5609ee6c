-- ===== src/Base/Bytes.antt =====
-- Go strings as bytes: their length, and slices of them, on code points in UTF-8.
use be_miawai.Base.Tests.{◌==◌, ltb, if◌then◌else◌, Option-cases}
use be_miawai.Base.Words.{Text}
use Prim.Native.Nat.{ℕ, ◌+◌, ◌-◌, ◌≤◌}
use mathlib.Core.Path.{◌≡◌}
use mathlib.Core.Logic.{inl, inr}
use mathlib.Core.Option.{Option, none, some}
use mathlib.Core.List.{[], ◌∷◌}
use native.Mathlib.Omega.{arith}

-- How many bytes encode a code point.
abbrev pub width : ℕ → ℕ
width c = if ltb c 0x80 then 1 else if ltb c 0x800 then 2 else if ltb c 0x10000 then 3 else 4

-- The length of a string in bytes, `len`.
unfoldable pub byte_length : Text → ℕ
byte_length [] = 0
byte_length (c ∷ s) = width c + byte_length s

abbrev pub cons_cut : ℕ → Option Text → Option Text
cons_cut c none = none
cons_cut c (some s) = some (c ∷ s)

-- `s[:n]` of a string that is no shorter; `none` where the cut falls inside a code point, so that
-- the bytes are no text.
unfoldable pub first_bytes : ℕ → Text → Option Text
first_bytes n [] = some []
first_bytes n (c ∷ s) =
    let rest = first_bytes (n - width c) s in
    if n == 0 then some [] else if ltb n (width c) then none else cons_cut c rest

pub first_bytes_bounded :
    (n : ℕ) (s : Text) {t : Text} → first_bytes n s ≡ some t → byte_length t ≤ n
unfolding first_bytes byte_length
first_bytes_bounded n [] h = ground arith
first_bytes_bounded n (c ∷ s) h = elim (Option-cases (first_bytes (n - width c) s)) [
  | inl e ↦ ground arith
  | inr (t, e) ↦ ground (arith, first_bytes_bounded (n - width c) s e)
]
