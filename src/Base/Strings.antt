-- ===== src/Base/Strings.antt =====
-- The functions of Go's `strings` that the program calls, on code points.
use be_miawai.Base.Tests.{◌==◌, leb, if◌then◌else◌}
use be_miawai.Base.Words.{Text, is_blank, text_eq}
use Prim.Native.Nat.{ℕ, ◌+◌}
use mathlib.Core.Path.{◌≡◌, refl, sym, ap, ◌∙◌}
use mathlib.Core.Bool.{Bool, true, false, ◌&&◌, ◌||◌}
use mathlib.Core.List.{[], ◌∷◌, map}
use native.Mathlib.Omega.{arith}

-- `unicode.IsSpace`
unfoldable pub is_space : ℕ → Bool
is_space c =
    (leb 9 c && leb c 13)
    || c == 32
    || c == 0x85
    || c == 0xa0
    || c == 0x1680
    || (leb 0x2000 c && leb c 0x200a)
    || c == 0x2028
    || c == 0x2029
    || c == 0x202f
    || c == 0x205f
    || c == 0x3000

-- `unicode.ToLower` on ASCII, and on the two other code points whose lower case is ASCII.
unfoldable pub lower : ℕ → ℕ
lower c =
    if leb b'A' c && leb c b'Z'
    then c + 32
    else if c == 0x130
    then b'i'
    else if c == 0x212a
    then b'k'
    else c

-- `strings.ToLower`
abbrev pub to_lower : Text → Text
to_lower = map lower

unfoldable pub trim_left : Text → Text
trim_left [] = []
trim_left (c ∷ s) = if is_space c then trim_left s else c ∷ s

-- One more character in front of a text that has no blanks at its end.
unfoldable pub snoc_trim : ℕ → Text → Text
snoc_trim c [] = if is_space c then [] else c ∷ []
snoc_trim c (d ∷ s) = c ∷ d ∷ s

unfoldable pub trim_right : Text → Text
trim_right [] = []
trim_right (c ∷ s) = snoc_trim c (trim_right s)

-- `strings.TrimSpace`
unfoldable pub trim_space : Text → Text
trim_space s = trim_right (trim_left s)

pub is_space-lower : (c : ℕ) → is_space (lower c) ≡ is_space c
unfolding is_space lower
is_space-lower c = ground arith

pub lower-lower : (c : ℕ) → lower (lower c) ≡ lower c
unfolding lower
lower-lower c = ground arith

pub to_lower-to_lower : (s : Text) → to_lower (to_lower s) ≡ to_lower s
to_lower-to_lower [] = refl
to_lower-to_lower (c ∷ s) = cc (lower-lower c, to_lower-to_lower s)

to_lower-snoc_trim :
    (c : ℕ) (s : Text) → to_lower (snoc_trim c s) ≡ snoc_trim (lower c) (to_lower s)
unfolding snoc_trim
to_lower-snoc_trim c [] = ground (arith, is_space-lower c)
to_lower-snoc_trim c (d ∷ s) = refl

to_lower-trim_right : (s : Text) → to_lower (trim_right s) ≡ trim_right (to_lower s)
unfolding trim_right
to_lower-trim_right [] = refl
to_lower-trim_right (c ∷ s) =
    ground (arith, to_lower-snoc_trim c (trim_right s), to_lower-trim_right s)

to_lower-trim_left : (s : Text) → to_lower (trim_left s) ≡ trim_left (to_lower s)
unfolding trim_left
to_lower-trim_left [] = refl
to_lower-trim_left (c ∷ s) = ground (arith, is_space-lower c, to_lower-trim_left s)

-- Case folding and trimming commute.
pub to_lower-trim_space : (s : Text) → to_lower (trim_space s) ≡ trim_space (to_lower s)
unfolding trim_space
to_lower-trim_space s = ground (arith, to_lower-trim_right (trim_left s), to_lower-trim_left s)

trim_right-snoc_trim :
    (c : ℕ) (t : Text) → trim_right t ≡ t → trim_right (snoc_trim c t) ≡ snoc_trim c t
unfolding trim_right snoc_trim
trim_right-snoc_trim c [] e = ground arith
trim_right-snoc_trim c (d ∷ t) e = rw e

trim_right-trim_right : (s : Text) → trim_right (trim_right s) ≡ trim_right s
unfolding trim_right
trim_right-trim_right [] = refl
trim_right-trim_right (c ∷ s) = trim_right-snoc_trim c (trim_right s) (trim_right-trim_right s)

-- The text does not begin with a blank.
abbrev StartsDark : Text → Type 0
StartsDark [] = Unit
StartsDark (c ∷ s) = is_space c ≡ false

trim_left-StartsDark : (s : Text) → StartsDark (trim_left s)
unfolding trim_left
trim_left-StartsDark [] = tt
trim_left-StartsDark (c ∷ s) = ground (arith, trim_left-StartsDark s)

snoc_trim-StartsDark : (c : ℕ) (s : Text) → is_space c ≡ false → StartsDark (snoc_trim c s)
unfolding snoc_trim
snoc_trim-StartsDark c [] h = rw h h
snoc_trim-StartsDark c (d ∷ s) h = h

trim_right-StartsDark : (s : Text) → StartsDark s → StartsDark (trim_right s)
unfolding trim_right
trim_right-StartsDark [] h = tt
trim_right-StartsDark (c ∷ s) h = snoc_trim-StartsDark c (trim_right s) h

trim_left_dark : (s : Text) → StartsDark s → trim_left s ≡ s
unfolding trim_left
trim_left_dark [] h = refl
trim_left_dark (c ∷ s) h = rw h

-- Trimming twice is trimming once.
pub trim_space-trim_space : (s : Text) → trim_space (trim_space s) ≡ trim_space s
unfolding trim_space
trim_space-trim_space s =
    ap trim_right (
      trim_left_dark (trim_right (trim_left s))
        (trim_right-StartsDark (trim_left s) (trim_left-StartsDark s)))
    ∙ trim_right-trim_right (trim_left s)

-- `strings.HasPrefix`
unfoldable pub has_prefix : Text → Text → Bool
has_prefix s [] = true
has_prefix [] (d ∷ t) = false
has_prefix (c ∷ s) (d ∷ t) = c == d && has_prefix s t

-- The text behind as many characters as `p` has.
unfoldable pub drop_text : Text → Text → Text
drop_text [] s = s
drop_text (d ∷ p) [] = []
drop_text (d ∷ p) (c ∷ s) = drop_text p s

-- `strings.TrimPrefix`
unfoldable pub trim_prefix : Text → Text → Text
trim_prefix s p = if has_prefix s p then drop_text p s else s

-- `strings.ToLower(strings.TrimSpace(s))`
unfoldable pub folded : Text → Text
folded s = to_lower (trim_space s)

pub folded-folded : (s : Text) → folded (folded s) ≡ folded s
unfolding folded
folded-folded s =
    ap to_lower (sym (to_lower-trim_space (trim_space s)))
    ∙ to_lower-to_lower (trim_space (trim_space s))
    ∙ ap to_lower (trim_space-trim_space s)

pub is_blank-to_lower : (s : Text) → is_blank (to_lower s) ≡ is_blank s
is_blank-to_lower [] = refl
is_blank-to_lower (c ∷ s) = refl

-- A folded text is trimmed already.
pub trim_space-folded : (s : Text) → trim_space (folded s) ≡ folded s
unfolding folded
trim_space-folded s =
    sym (to_lower-trim_space (trim_space s)) ∙ ap to_lower (trim_space-trim_space s)

-- `strings.Split(s, sep)[0]`, the text before the first `sep`; for a separator of one character.
unfoldable pub before : ℕ → Text → Text
before sep [] = []
before sep (c ∷ s) = if c == sep then [] else c ∷ before sep s

-- `strings.TrimSuffix`
unfoldable pub trim_suffix : Text → Text → Text
trim_suffix [] p = []
trim_suffix (c ∷ s) p = let rest = trim_suffix s p in if text_eq (c ∷ s) p then [] else c ∷ rest
