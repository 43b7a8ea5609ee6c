-- ===== src/Database/Rows/Apart.antt =====
-- Rows that an update does not concern, and the first row after it.
use be_miawai.Base.{
  ◌&&◌, ◌≡◌, refl, List, [], ◌∷◌, ◌++◌, Bool, true, false, map, arith, Bool-cases, inl, inr, some,
}
use be_miawai.Database.Rows.{rows_where, delete_rows, touch_rows, any_row, first_row, update_rows}

module _ {A : Type 0} where
  rows_where-append :
      (p : A → Bool) (rs ss : List A) → rows_where p (rs ++ ss) ≡ rows_where p rs ++ rows_where p ss
  unfolding rows_where
  rows_where-append p [] ss = refl
  rows_where-append p (r ∷ rs) ss = ground (arith, rows_where-append p rs ss)

  rows_where-touched :
      (p test : A → Bool) (change : A → A) (rs : List A)
      → ((r : A) → test r ≡ true → p (change r) ≡ false)
      → rows_where p (map change (rows_where test rs)) ≡ []
  unfolding rows_where
  rows_where-touched p test change [] k = refl
  rows_where-touched p test change (r ∷ rs) k =
      ground (arith, rows_where-touched p test change rs k, k r)

  rows_where-untouched :
      (p test : A → Bool) (rs : List A)
      → ((r : A) → test r ≡ true → p r ≡ false)
      → rows_where p (delete_rows test rs) ≡ rows_where p rs
  unfolding rows_where delete_rows
  rows_where-untouched p test [] k = refl
  rows_where-untouched p test (r ∷ rs) k = ground (arith, rows_where-untouched p test rs k, k r)

  -- An update of rows that a query does not read, before or after it, leaves its answer.
  pub rows_where-touch_rows :
      (p test : A → Bool) (change : A → A) (rs : List A)
      → ((r : A) → test r ≡ true → p r ≡ false)
      → ((r : A) → test r ≡ true → p (change r) ≡ false)
      → rows_where p (touch_rows test change rs) ≡ rows_where p rs
  unfolding touch_rows
  rows_where-touch_rows p test change rs k l = ground (
    arith,
    rows_where-append p (map change (rows_where test rs)) (delete_rows test rs),
    rows_where-touched p test change rs l,
    rows_where-untouched p test rs k,
  )

  -- A narrower query reads what the wider one reads.
  pub rows_where-and :
      (p q : A → Bool) (rs : List A)
      → rows_where (λ r. p r && q r) rs ≡ rows_where q (rows_where p rs)
  unfolding rows_where
  rows_where-and p q [] = refl
  rows_where-and p q (r ∷ rs) = ground (arith, rows_where-and p q rs)

  -- Where a test picks a row, there is a first one.
  pub rows_where-first :
      (test : A → Bool) (rs : List A)
      → any_row test rs ≡ true
      → (r : A) × (rest : List A) × (rows_where test rs ≡ r ∷ rest) × (test r ≡ true)
  unfolding any_row rows_where
  rows_where-first test [] h = cc
  rows_where-first test (r ∷ rs) h = elim (Bool-cases (test r)) [
    | inl t ↦ (r, rows_where test rs, ground (arith, t), t)
    | inr t ↦
        let (s, rest, e, p) = rows_where-first test rs (ground (arith, h, t)) in
        (s, rest, ground (arith, t, e), p)
  ]

  -- The row that is found after an update of the rows that the same test picks.
  pub first_row-update_rows :
      (test : A → Bool) (change : A → A) (rs : List A) (r : A)
      → ((s : A) → test s ≡ true → test (change s) ≡ true)
      → first_row test rs ≡ some r
      → first_row test (update_rows test change rs) ≡ some (change r)
  unfolding first_row update_rows
  first_row-update_rows test change [] r k h = cc
  first_row-update_rows test change (s ∷ rs) r k h =
      ground (arith, h, k s, first_row-update_rows test change rs r k)

  pub first_row-any :
      (test : A → Bool) (rs : List A) (r : A) → first_row test rs ≡ some r → any_row test rs ≡ true
  unfolding first_row any_row
  first_row-any test [] r h = cc
  first_row-any test (s ∷ rs) r h = ground (arith, h, first_row-any test rs r)

  pub any_row-first :
      (test : A → Bool) (rs : List A)
      → any_row test rs ≡ true
      → (r : A) × (first_row test rs ≡ some r) × (test r ≡ true)
  unfolding first_row any_row
  any_row-first test [] h = cc
  any_row-first test (s ∷ rs) h = elim (Bool-cases (test s)) [
    | inl t ↦ (s, rw t refl, t)
    | inr t ↦ let (r, e, p) = any_row-first test rs (ground (arith, h, t)) in (r, rw t e, p)
  ]
