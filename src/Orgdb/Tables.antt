-- ===== src/Orgdb/Tables.antt =====
-- Rows that stand in order, and columns that no two rows share.
use hyve.Prelude.{
  String, Bool, false, Option, none, some, List, [], ◌∷◌, ◌==◌, ◌≡◌, refl, if◌then◌else◌, any, map,
  arith,
}
use hyve.Workflow.Requirements.{string_lt}

-- `email = ?` in SQL: NULL equals nothing.
abbrev pub is_equal : Option String → String → Bool
is_equal none s = false
is_equal (some t) s = t == s

-- An update of the rows that a test selects.
abbrev pub update : {A : Type 0} → (A → Bool) → (A → A) → List A → List A
update test change rows = map (λ row. if test row then change row else row) rows

module _ {A : Type 0} where
  -- ORDER BY a column
  insert_row : (A → String) → A → List A → List A
  insert_row column row [] = row ∷ []
  insert_row column row (other ∷ rows) =
      let later = insert_row column row rows in
      if string_lt (column other) (column row) then other ∷ later else row ∷ other ∷ rows

  unfoldable pub order_by : (A → String) → List A → List A
  unfolding insert_row
  order_by column [] = []
  order_by column (row ∷ rows) = insert_row column row (order_by column rows)

  any-insert_row :
      (p : A → Bool) (column : A → String) (row : A) (rows : List A)
      → any p (insert_row column row rows) ≡ any p (row ∷ rows)
  unfolding insert_row
  any-insert_row p column row [] = refl
  any-insert_row p column row (other ∷ rows) = ground (arith, any-insert_row p column row rows)

  -- Ordering keeps the rows.
  pub any-order_by :
      (p : A → Bool) (column : A → String) (rows : List A)
      → any p (order_by column rows) ≡ any p rows
  unfolding order_by
  any-order_by p column [] = refl
  any-order_by p column (row ∷ rows) =
      ground (arith, any-order_by p column rows, any-insert_row p column row (order_by column rows))
