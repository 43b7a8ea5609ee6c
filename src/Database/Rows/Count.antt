-- ===== src/Database/Rows/Count.antt =====
-- How many rows of a table a test picks, before and after an update.
use be_miawai.Base.{
  ℕ, ◌+◌, ◌≤◌, ◌≡◌, refl, List, [], ◌∷◌, ◌++◌, Bool, true, false, not, ◌&&◌, map, arith,
  if◌then◌else◌,
}
use be_miawai.Database.Rows.{any_row, rows_where, delete_rows, touch_rows}

module _ {A : Type 0} where
  unfoldable pub count : (A → Bool) → List A → ℕ
  count test [] = 0
  count test (r ∷ rs) = (if test r then 1 else 0) + count test rs

  pub count-none : (test : A → Bool) (rs : List A) → any_row test rs ≡ false → count test rs ≡ 0
  unfolding count any_row
  count-none test [] h = refl
  count-none test (r ∷ rs) h = ground (arith, count-none test rs)

  pub count-le :
      (p q : A → Bool) (rs : List A) → ((r : A) → p r ≡ true → q r ≡ true) → count p rs ≤ count q rs
  unfolding count
  count-le p q [] k = omega arith
  count-le p q (r ∷ rs) k = ground (arith, count-le p q rs k, k r)

  count-append : (p : A → Bool) (rs ss : List A) → count p (rs ++ ss) ≡ count p rs + count p ss
  unfolding count
  count-append p [] ss = omega arith
  count-append p (r ∷ rs) ss = ground (arith, count-append p rs ss)

  -- The touched rows count by what they have become, the others as before.
  count-touched :
      (p test : A → Bool) (change : A → A) (rs : List A)
      → count p (map change (rows_where test rs)) ≤ count (λ r. test r && p (change r)) rs
  unfolding count rows_where
  count-touched p test change [] = omega arith
  count-touched p test change (r ∷ rs) = ground (arith, count-touched p test change rs)

  count-untouched :
      (p test : A → Bool) (rs : List A)
      → count p (delete_rows test rs) ≡ count (λ r. p r && not (test r)) rs
  unfolding count delete_rows
  count-untouched p test [] = refl
  count-untouched p test (r ∷ rs) = ground (arith, count-untouched p test rs)

  pub count-touch_rows :
      (p test : A → Bool) (change : A → A) (rs : List A)
      → count p (touch_rows test change rs)
        ≤ count (λ r. test r && p (change r)) rs + count (λ r. p r && not (test r)) rs
  unfolding touch_rows
  count-touch_rows p test change rs = omega (
    arith,
    count-append p (map change (rows_where test rs)) (delete_rows test rs),
    count-touched p test change rs,
    count-untouched p test rs,
  )

  -- Two tests that no row passes both.
  count-apart :
      (p q t : A → Bool) (rs : List A)
      → ((r : A) → p r ≡ true → t r ≡ true)
      → ((r : A) → q r ≡ true → t r ≡ true)
      → ((r : A) → p r ≡ true → q r ≡ false)
      → count p rs + count q rs ≤ count t rs
  unfolding count
  count-apart p q t [] k l m = omega arith
  count-apart p q t (r ∷ rs) k l m = ground (arith, count-apart p q t rs k l m, k r, l r, m r)

  -- A change after which a row passes a test only if it did before makes no row more pass it.
  pub count-touch_rows_le :
      (p test : A → Bool) (change : A → A) (rs : List A)
      → ((r : A) → test r ≡ true → p (change r) ≡ true → p r ≡ true)
      → count p (touch_rows test change rs) ≤ count p rs
  count-touch_rows_le p test change rs k = omega (
    arith,
    count-touch_rows p test change rs,
    count-apart (λ r. test r && p (change r)) (λ r. p r && not (test r)) p rs
        (λ r h. ground (arith, k r, h)) (λ r h. ground (arith, h)) (λ r h. ground (arith, h)),
  )
