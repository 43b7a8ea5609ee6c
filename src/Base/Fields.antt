-- ===== src/Base/Fields.antt =====
-- `strings.Fields`, and texts with single blanks.
use be_miawai.Base.Tests.{if◌then◌else◌}
use be_miawai.Base.Words.{Text}
use be_miawai.Base.Split.{join}
use be_miawai.Base.Strings.{is_space}
use Prim.Native.Nat.{ℕ}
use mathlib.Core.List.{List, [], ◌∷◌}

-- One more character in front of the first word.
abbrev pub extend_word : ℕ → List Text → List Text
extend_word c [] = (c ∷ []) ∷ []
extend_word c (word ∷ words) = (c ∷ word) ∷ words

-- A character in front of the text `s`, whose words are given.
abbrev pub add_char : ℕ → Text → List Text → List Text
add_char c [] words = (c ∷ []) ∷ words
add_char c (d ∷ s) words = if is_space d then (c ∷ []) ∷ words else extend_word c words

-- `strings.Fields`
unfoldable pub fields : Text → List Text
fields [] = []
fields (c ∷ s) = let words = fields s in if is_space c then words else add_char c s words

-- `strings.Join(strings.Fields(s), " ")`
unfoldable pub squeezed : Text → Text
unfolding fields
squeezed s = join 32 (fields s)
