-- ===== src/Tables/Owned.antt =====
-- Rows that belong to a key of another table, and the replacement of those of one key.
use rust_roast.Prelude.{
  String, Bool, List, [], ◌∷◌, ◌++◌, ◌≡◌, refl, ◌∙◌, arith, str_eq, eq_iff, if◌then◌else◌,
  Bool-cases, inl, inr, All, select, append-nil,
}
use rust_roast.Tables.{delete_rows}

module _ {ℓ} {A : Type ℓ} where
  pub select-append :
      (q : A → Bool) (xs ys : List A) → select q (xs ++ ys) ≡ select q xs ++ select q ys
  select-append q [] ys = refl
  select-append q (x ∷ xs) ys = elim (Bool-cases (q x)) [
    | inl e ↦ rw (e, select-append q xs ys) refl
    | inr e ↦ rw (e, select-append q xs ys) refl
  ]

  module _ (owner : A → String) where
    abbrev pub owned : String → A → Bool
    owned d x = str_eq (owner x) d

    -- The rows of one key among rows that are all of another.
    select-new :
        (d e : String) (rows : List A)
        → All (λ x. owner x ≡ d) rows
        → select (owned e) rows ≡ (if str_eq d e then rows else [])
    select-new d e [] a = ground arith
    select-new d e (x ∷ rows) a = elim (Bool-cases (str_eq d e)) [
      | inl k ↦ rw (a.0, k, select-new d e rows a.1, k) refl
      | inr k ↦ rw (a.0, k, select-new d e rows a.1, k) refl
    ]

    pub select-kept :
        (d e : String) (table : List A)
        → select (owned e) (delete_rows (owned d) table)
          ≡ (if str_eq d e then [] else select (owned e) table)
    select-kept d e [] = ground arith
    select-kept d e (x ∷ table) =
        ground (arith, select-kept d e table, eq_iff d e, eq_iff (owner x) d, eq_iff (owner x) e)

    -- The rows of a key after the rows of one key are deleted and new ones of that key inserted.
    pub select-replaced :
        (table : List A) (d e : String) (rows : List A)
        → All (λ x. owner x ≡ d) rows
        → select (owned e) (delete_rows (owned d) table ++ rows)
          ≡ (if str_eq d e then rows else select (owned e) table)
    select-replaced table d e rows a =
        select-append (owned e) (delete_rows (owned d) table) rows
        ∙ rw (select-kept d e table, select-new d e rows a)
            (elim (Bool-cases (str_eq d e)) [
              | inl k ↦ rw k refl
              | inr k ↦ rw (k, append-nil (select (owned e) table)) refl
            ])
