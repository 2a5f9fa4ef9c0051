-- ===== src/Tables/Inserts.antt =====
-- A loop of inserts into a table with a primary key: it ends at the first error, and what was
-- inserted before stays.
use rust_roast.Prelude.{
  String, Bool, false, List, [], ◌∷◌, ◌++◌, Option, none, some, ◌≡◌, refl, sym, ◌∙◌, arith,
  if◌then◌else◌, Bool-cases, inl, inr, All, All-append, any, append_assoc, append-nil, select,
}
use rust_roast.Tables.{keyed}
use rust_roast.Tables.Owned.{select-append}

module _ {ℓ} {A : Type ℓ} (key : A → String) where
  -- The first error, and the table after the loop.
  unfoldable pub insert_all : List A → List A → Option String × List A
  insert_all [] table = (none, table)
  insert_all (row ∷ rows) table =
      let rest = insert_all rows (table ++ row ∷ []) in
      if any (keyed key (key row)) table then (some "UNIQUE constraint failed", table) else rest

  pub insert_all-appends :
      (rows table : List A)
      → (insert_all rows table).0 ≡ none
      → (insert_all rows table).1 ≡ table ++ rows
  unfolding insert_all
  insert_all-appends [] table e = sym (append-nil table)
  insert_all-appends (row ∷ rows) table e = elim (Bool-cases (any (keyed key (key row)) table)) [
    | inl k ↦ ground arith
    | inr k ↦ rw k (
        insert_all-appends rows (table ++ row ∷ []) (ground arith)
        ∙ append_assoc table (row ∷ []) rows)
  ]

  -- A loop that fails has inserted some of the rows.
  pub All-insert_all {κ} :
      (P : A → Type κ) (rows table : List A)
      → All P rows
      → All P table
      → All P (insert_all rows table).1
  unfolding insert_all
  All-insert_all P [] table v w = w
  All-insert_all P (row ∷ rows) table v w = elim (Bool-cases (any (keyed key (key row)) table)) [
    | inl k ↦ rw k w
    | inr k ↦ rw k (All-insert_all P rows (table ++ row ∷ []) v.1 (All-append P table row w v.0))
  ]

  -- Rows that do not pass a test leave what passes it.
  pub select-insert_all :
      (q : A → Bool) (rows table : List A)
      → All (λ row. q row ≡ false) rows
      → select q (insert_all rows table).1 ≡ select q table
  unfolding insert_all
  select-insert_all q [] table v = refl
  select-insert_all q (row ∷ rows) table v = elim (Bool-cases (any (keyed key (key row)) table)) [
    | inl k ↦ rw k refl
    | inr k ↦ rw k (
        select-insert_all q rows (table ++ row ∷ []) v.1
        ∙ select-append q table (row ∷ [])
        ∙ rw v.0 (append-nil (select q table)))
  ]
