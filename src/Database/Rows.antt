-- ===== src/Database/Rows.antt =====
-- What the queries do to the rows of a table: a WHERE clause is a test on a row.
pub mod Count
pub mod Apart
pub mod Every
use be_miawai.Base.{
  ℕ, zero, suc, List, [], ◌∷◌, ◌++◌, map, Option, none, some, Bool, false, ◌||◌, if◌then◌else◌,
}

module _ {A : Type 0} where
  -- A change of every row that a WHERE clause picks.
  unfoldable pub update_rows : (A → Bool) → (A → A) → List A → List A
  update_rows test change [] = []
  update_rows test change (r ∷ rs) = (if test r then change r else r) ∷ update_rows test change rs

  unfoldable pub any_row : (A → Bool) → List A → Bool
  any_row test [] = false
  any_row test (r ∷ rs) = test r || any_row test rs

  unfoldable pub first_row : (A → Bool) → List A → Option A
  first_row test [] = none
  first_row test (r ∷ rs) = if test r then some r else first_row test rs

  unfoldable pub rows_where : (A → Bool) → List A → List A
  rows_where test [] = []
  rows_where test (r ∷ rs) = let rest = rows_where test rs in if test r then r ∷ rest else rest

  unfoldable pub delete_rows : (A → Bool) → List A → List A
  delete_rows test [] = []
  delete_rows test (r ∷ rs) = let rest = delete_rows test rs in if test r then rest else r ∷ rest

  -- `LIMIT`
  unfoldable pub take : ℕ → List A → List A
  take zero rs = []
  take (suc n) [] = []
  take (suc n) (r ∷ rs) = r ∷ take n rs

  -- An update of the rows that a WHERE clause picks, which come first after it, since a query
  -- orders them by `updated_at`.
  unfoldable pub touch_rows : (A → Bool) → (A → A) → List A → List A
  unfolding rows_where delete_rows
  touch_rows test change rs = map change (rows_where test rs) ++ delete_rows test rs
