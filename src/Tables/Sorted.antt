-- ===== src/Tables/Sorted.antt =====
-- `ORDER BY`: what it returns is in order.
use rust_roast.Sessions.Summary.{present}
use rust_roast.Prelude.{
  ℕ, zero, suc, Option, some, Option-cases, All, All-impl, take, Bool, true, false, List, [], ◌∷◌,
  ◌≡◌, Bool-cases, inl, inr, any, refl, arith,
}
use rust_roast.Tables.{insert_row, order_by}

module _ {ℓ} {A : Type ℓ} (before : A → A → Bool) where
  -- The first row, if there is one, does not come before the row `a`.
  abbrev Above : A → List A → Type 0
  Above a [] = Unit
  Above a (b ∷ bs) = before a b ≡ true

  abbrev pub IsSorted : List A → Type 0
  IsSorted [] = Unit
  IsSorted (a ∷ as') = Above a as' × IsSorted as'

  Above-insert_row :
      (a b : A) (bs : List A) → before b a ≡ true → Above b bs → Above b (insert_row before a bs)
  Above-insert_row a b [] e v = e
  Above-insert_row a b (c ∷ cs) e v = elim (Bool-cases (before a c)) [
    | inl k ↦ rw k e
    | inr k ↦ rw k v
  ]

  module _ (total : (a b : A) → before a b ≡ false → before b a ≡ true) where
    insert_row-IsSorted : (a : A) (bs : List A) → IsSorted bs → IsSorted (insert_row before a bs)
    insert_row-IsSorted a [] v = (tt, tt)
    insert_row-IsSorted a (b ∷ bs) v = elim (Bool-cases (before a b)) [
      | inl k ↦ rw k (k, v)
      | inr k ↦ rw k (Above-insert_row a b bs (total a b k) v.0, insert_row-IsSorted a bs v.1)
    ]

    pub order_by-IsSorted : (rows : List A) → IsSorted (order_by before rows)
    order_by-IsSorted [] = tt
    order_by-IsSorted (a ∷ rows) =
        insert_row-IsSorted a (order_by before rows) (order_by-IsSorted rows)

  -- Every row comes before all that follow.
  abbrev pub IsOrdered : List A → Type 0
  IsOrdered [] = Unit
  IsOrdered (a ∷ as') = All (λ b. before a b ≡ true) as' × IsOrdered as'

  module _ (trans : (a b c : A) → before a b ≡ true → before b c ≡ true → before a c ≡ true) where
    all_after :
        (a b : A) (bs : List A)
        → before a b ≡ true
        → All (λ c. before b c ≡ true) bs
        → All (λ c. before a c ≡ true) bs
    all_after a b bs e v =
        All-impl (λ c. before b c ≡ true) (λ c. before a c ≡ true) (λ c f. trans a b c e f) bs v

    pub IsOrdered-IsSorted : (rows : List A) → IsSorted rows → IsOrdered rows
    IsOrdered-IsSorted [] v = tt
    IsOrdered-IsSorted (a ∷ []) v = (tt, tt)
    IsOrdered-IsSorted (a ∷ b ∷ rows) v =
        let rest : IsOrdered (b ∷ rows) = IsOrdered-IsSorted (b ∷ rows) v.1 in
        ((v.0, all_after a b rows v.0 rest.0), rest)

-- The elements that are taken, and those that a partial function is defined on.
module _ {ℓ κ} {A : Type ℓ} (P : A → Type κ) where
  pub All-take : (n : ℕ) (xs : List A) → All P xs → All P (take n xs)
  All-take zero xs v = tt
  All-take (suc n) [] v = tt
  All-take (suc n) (x ∷ xs) v = (v.0, All-take n xs v.1)

  pub All-insert_row :
      (before : A → A → Bool) (a : A) (xs : List A)
      → P a
      → All P xs
      → All P (insert_row before a xs)
  All-insert_row before a [] p v = (p, tt)
  All-insert_row before a (x ∷ xs) p v = elim (Bool-cases (before a x)) [
    | inl e ↦ rw e (p, v)
    | inr e ↦ rw e (v.0, All-insert_row before a xs p v.1)
  ]

  pub All-order_by : (before : A → A → Bool) (xs : List A) → All P xs → All P (order_by before xs)
  All-order_by before [] v = tt
  All-order_by before (x ∷ xs) v =
      All-insert_row before x (order_by before xs) v.0 (All-order_by before xs v.1)

  pub All-present {μ} :
      {B : Type μ} (Q : B → Type κ) (f : A → Option B)
      → ((a : A) (b : B) → f a ≡ some b → P a → Q b)
      → (xs : List A) → All P xs
      → All Q (present f xs)
  All-present Q f step [] v = tt
  All-present Q f step (x ∷ xs) v = elim (Option-cases (f x)) [
    | inl e ↦ rw (present, e) (All-present Q f step xs v.1)
    | inr (b, e) ↦ rw (present, e) (step x b e v.0, All-present Q f step xs v.1)
  ]

module _ {ℓ} {A : Type ℓ} (before : A → A → Bool) where
  pub take-IsOrdered : (n : ℕ) (xs : List A) → IsOrdered before xs → IsOrdered before (take n xs)
  take-IsOrdered zero xs v = tt
  take-IsOrdered (suc n) [] v = tt
  take-IsOrdered (suc n) (x ∷ xs) v =
      (All-take (λ y. before x y ≡ true) n xs v.0, take-IsOrdered n xs v.1)

  pub present-IsOrdered {κ} :
      {B : Type κ} (after : B → B → Bool) (f : A → Option B)
      → ((a b : A) (c d : B) → f a ≡ some c → f b ≡ some d → before a b ≡ true → after c d ≡ true)
      → (xs : List A) → IsOrdered before xs
      → IsOrdered after (present f xs)
  present-IsOrdered after f step [] v = tt
  present-IsOrdered after f step (x ∷ xs) v = elim (Option-cases (f x)) [
    | inl e ↦ rw (present, e) (present-IsOrdered after f step xs v.1)
    | inr (c, e) ↦
        rw (present, e)
          (
            All-present (λ b. before x b ≡ true) (λ d. after c d ≡ true) f
                (λ b d k v. step x b c d e k v) xs v.0,
            present-IsOrdered after f step xs v.1,
          )
  ]

module _ {ℓ} {A : Type ℓ} (p : A → Bool) (before : A → A → Bool) where
  any-insert_row : (a : A) (xs : List A) → any p (insert_row before a xs) ≡ any p (a ∷ xs)
  any-insert_row a [] = refl
  any-insert_row a (x ∷ xs) = elim (Bool-cases (before a x)) [
    | inl e ↦ rw e refl
    | inr e ↦ rw e (ground (arith, any-insert_row a xs))
  ]

  -- `ORDER BY` keeps the rows.
  pub any-order_by : (xs : List A) → any p (order_by before xs) ≡ any p xs
  any-order_by [] = refl
  any-order_by (x ∷ xs) = ground (arith, any-insert_row x (order_by before xs), any-order_by xs)
