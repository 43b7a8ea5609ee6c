-- ===== src/Database/Rows/Every.antt =====
-- What every row keeps through an update.
use be_miawai.Base.{
  [], ◌∷◌, ◌++◌, inl, inr, List, Bool, map, Bool-cases, ◌⊎◌, false, true, ◌≡◌, arith, refl,
}
use be_miawai.Database.Rows.{rows_where, delete_rows, touch_rows, any_row}
use be_miawai.Base.Lists.{All}

module _ {A : Type 0} (P : A → Type 0) where
  All-append : (rs ss : List A) → All P rs → All P ss → All P (rs ++ ss)
  All-append [] ss h k = k
  All-append (r ∷ rs) ss (p, h) k = (p, All-append rs ss h k)

  All-picked :
      (test : A → Bool) (change : A → A) (rs : List A)
      → ((r : A) → P r → P (change r))
      → All P rs
      → All P (map change (rows_where test rs))
  unfolding rows_where
  All-picked test change [] k h = tt
  All-picked test change (r ∷ rs) k (p, h) = elim (Bool-cases (test r)) [
    | inl t ↦ rw t (k r p, All-picked test change rs k h)
    | inr t ↦ rw t (All-picked test change rs k h)
  ]

  pub All-left : (test : A → Bool) (rs : List A) → All P rs → All P (delete_rows test rs)
  unfolding delete_rows
  All-left test [] h = tt
  All-left test (r ∷ rs) (p, h) = elim (Bool-cases (test r)) [
    | inl t ↦ rw t (All-left test rs h)
    | inr t ↦ rw t (p, All-left test rs h)
  ]

  pub All-touch_rows :
      (test : A → Bool) (change : A → A) (rs : List A)
      → ((r : A) → P r → P (change r))
      → All P rs
      → All P (touch_rows test change rs)
  unfolding touch_rows
  All-touch_rows test change rs k h =
      All-append (map change (rows_where test rs)) (delete_rows test rs)
        (All-picked test change rs k h) (All-left test rs h)

module _ {A : Type 0} (p : A → Bool) where
  any_row-left : (rs ss : List A) → any_row p rs ≡ true → any_row p (rs ++ ss) ≡ true
  unfolding any_row
  any_row-left [] ss h = cc
  any_row-left (r ∷ rs) ss h = ground (arith, h, any_row-left rs ss)

  any_row-right : (rs ss : List A) → any_row p ss ≡ true → any_row p (rs ++ ss) ≡ true
  unfolding any_row
  any_row-right [] ss h = h
  any_row-right (r ∷ rs) ss h = ground (arith, any_row-right rs ss h)

  any_row-split :
      (test : A → Bool) (change : A → A) (rs : List A)
      → ((r : A) → p r ≡ true → p (change r) ≡ true)
      → any_row p rs ≡ true
      → (any_row p (map change (rows_where test rs)) ≡ true)
        ⊎ (any_row p (delete_rows test rs) ≡ true)
  unfolding any_row rows_where delete_rows
  any_row-split test change [] k h = cc
  any_row-split test change (r ∷ rs) k h = ground (arith, h, k r, any_row-split test change rs k)

  -- A row that a query reads is read after an update that leaves it so.
  pub any_row-touch_rows_kept :
      (test : A → Bool) (change : A → A) (rs : List A)
      → ((r : A) → p r ≡ true → p (change r) ≡ true)
      → any_row p rs ≡ true
      → any_row p (touch_rows test change rs) ≡ true
  unfolding touch_rows
  any_row-touch_rows_kept test change rs k h = elim (any_row-split test change rs k h) [
    | inl e ↦ any_row-left (map change (rows_where test rs)) (delete_rows test rs) e
    | inr e ↦ any_row-right (map change (rows_where test rs)) (delete_rows test rs) e
  ]

  none-append :
      (rs ss : List A) → any_row p rs ≡ false → any_row p ss ≡ false → any_row p (rs ++ ss) ≡ false
  unfolding any_row
  none-append [] ss h k = k
  none-append (r ∷ rs) ss h k = ground (arith, h, none-append rs ss (ground arith) k)

  none-split :
      (test : A → Bool) (change : A → A) (rs : List A)
      → ((r : A) → p r ≡ false → p (change r) ≡ false)
      → any_row p rs ≡ false
      → (any_row p (map change (rows_where test rs)) ≡ false)
        × (any_row p (delete_rows test rs) ≡ false)
  unfolding any_row rows_where delete_rows
  none-split test change [] k h = (refl, refl)
  none-split test change (r ∷ rs) k h =
      let (a, b) = none-split test change rs k (ground (arith, h)) in
      (ground (arith, h, k r, a), ground (arith, h, b))

  -- An update that makes no row such as a query reads leaves it none.
  pub any_row-touch_rows_none :
      (test : A → Bool) (change : A → A) (rs : List A)
      → ((r : A) → p r ≡ false → p (change r) ≡ false)
      → any_row p rs ≡ false
      → any_row p (touch_rows test change rs) ≡ false
  unfolding touch_rows
  any_row-touch_rows_none test change rs k h =
      let (a, b) = none-split test change rs k h in
      none-append (map change (rows_where test rs)) (delete_rows test rs) a b
