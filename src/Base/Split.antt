-- ===== src/Base/Split.antt =====
-- `strings.Split` at a separator of one character, and texts joined again.
use be_miawai.Base.Tests.{◌==◌, if◌then◌else◌}
use be_miawai.Base.Words.{Text}
use Prim.Native.Nat.{ℕ}
use mathlib.Core.Path.{◌≡◌, refl}
use mathlib.Core.Logic.{◌≢◌}
use mathlib.Core.Bool.{Bool, true, not, ◌&&◌}
use mathlib.Core.List.{List, [], ◌∷◌, ◌++◌}
use native.Mathlib.Omega.{arith}

abbrev pub into_head : ℕ → List Text → List Text
into_head c [] = (c ∷ []) ∷ []
into_head c (p ∷ ps) = (c ∷ p) ∷ ps

-- `strings.Split`
unfoldable pub split : ℕ → Text → List Text
split sep [] = [] ∷ []
split sep (c ∷ s) = let rest = split sep s in if c == sep then [] ∷ rest else into_head c rest

-- The parts with the separator between them.
unfoldable pub join : ℕ → List Text → Text
join sep [] = []
join sep (p ∷ []) = p
join sep (p ∷ q ∷ ps) = p ++ (sep ∷ join sep (q ∷ ps))

-- The text does not hold the character.
unfoldable pub lacks : ℕ → Text → Bool
lacks sep [] = true
lacks sep (c ∷ s) = not (c == sep) && lacks sep s

join-blank_head : (sep : ℕ) (ps : List Text) → ps ≢ [] → join sep ([] ∷ ps) ≡ sep ∷ join sep ps
unfolding join
join-blank_head sep [] n = absurd (n refl)
join-blank_head sep (p ∷ ps) n = refl

join-into_head :
    (sep c : ℕ) (ps : List Text) → ps ≢ [] → join sep (into_head c ps) ≡ c ∷ join sep ps
unfolding join
join-into_head sep c [] n = absurd (n refl)
join-into_head sep c (p ∷ []) n = refl
join-into_head sep c (p ∷ q ∷ ps) n = refl

split_some : (sep : ℕ) (s : Text) → split sep s ≢ []
unfolding split join
split_some sep [] h = cc
split_some sep (c ∷ s) h = ground (arith, split_some sep s)

pub join-split : (sep : ℕ) (s : Text) → join sep (split sep s) ≡ s
unfolding split join
join-split sep [] = refl
join-split sep (c ∷ s) = ground (
  arith,
  split_some sep s,
  join-split sep s,
  join-blank_head sep (split sep s),
  join-into_head sep c (split sep s),
)

pub split-lacks : (sep : ℕ) (p : Text) → lacks sep p ≡ true → split sep p ≡ p ∷ []
unfolding split lacks
split-lacks sep [] h = refl
split-lacks sep (c ∷ p) h = ground (arith, split-lacks sep p)

pub split-first :
    (sep : ℕ) (p s : Text) → lacks sep p ≡ true → split sep (p ++ (sep ∷ s)) ≡ p ∷ split sep s
unfolding split lacks
split-first sep [] s h = ground arith
split-first sep (c ∷ p) s h = ground (arith, split-first sep p s)
