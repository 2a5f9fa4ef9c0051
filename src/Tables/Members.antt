-- ===== src/Tables/Members.antt =====
-- Which rows a statement of the services gives: those of the table that its conditions choose.
use mathlib.Core.List.{Memᴰ}
use mathlib.Core.List.Memᴰ.{head, tail}
use rust_roast.Prelude.{
  ℕ, zero, suc, ◌≤◌, Bool, true, List, [], ◌∷◌, Option, some, ◌≡◌, ◌⊎◌, inl, inr, refl, sym, subst,
  arith, All, select, take, length, Bool-cases, Option-cases,
}
use rust_roast.Tables.{insert_row, order_by}
use rust_roast.Tables.Sorted.{IsOrdered}
use rust_roast.Sessions.Summary.{present}

module _ {ℓ} {A : Type ℓ} where
  pub All-Mem {κ} : (P : A → Type κ) (a : A) (xs : List A) → All P xs → Memᴰ a xs → P a
  All-Mem P a [] v m = elim m [ ]
  All-Mem P a (x ∷ xs) v (head e) = subst P (sym e) v.0
  All-Mem P a (x ∷ xs) v (tail m) = All-Mem P a xs v.1 m

  pub All-each {κ} : (P : A → Type κ) (xs : List A) → ((a : A) → Memᴰ a xs → P a) → All P xs
  All-each P [] f = tt
  All-each P (x ∷ xs) f = (f x (head refl), All-each P xs (λ a m. f a (tail m)))

  -- The rows that `WHERE` chooses keep what holds of every row, and meet the condition.
  pub All-chosen {κ} :
      (P : A → Type κ) (p : A → Bool) (xs : List A)
      → All P xs
      → All (λ a. P a × (p a ≡ true)) (select p xs)
  All-chosen P p [] v = tt
  All-chosen P p (x ∷ xs) v = elim (Bool-cases (p x)) [
    | inl e ↦ rw e ((v.0, e), All-chosen P p xs v.1)
    | inr e ↦ rw e (All-chosen P p xs v.1)
  ]

  pub Mem-select :
      (p : A → Bool) (a : A) (xs : List A) → Memᴰ a xs → p a ≡ true → Memᴰ a (select p xs)
  Mem-select p a [] m k = elim m [ ]
  Mem-select p a (x ∷ xs) (head e) k =
      let here : p x ≡ true = subst (λ b. p b ≡ true) e k in rw here (head e)
  Mem-select p a (x ∷ xs) (tail m) k = elim (Bool-cases (p x)) [
    | inl e ↦ rw e (tail (Mem-select p a xs m k))
    | inr e ↦ rw e (Mem-select p a xs m k)
  ]

  pub Mem-present {κ} :
      {B : Type κ} (f : A → Option B) (a : A) (b : B) (xs : List A)
      → Memᴰ a xs
      → f a ≡ some b
      → Memᴰ b (present f xs)
  Mem-present f a b [] m k = elim m [ ]
  Mem-present f a b (x ∷ xs) (head e) k =
      let here : f x ≡ some b = subst (λ c. f c ≡ some b) e k in rw (present, here) (head refl)
  Mem-present f a b (x ∷ xs) (tail m) k = elim (Option-cases (f x)) [
    | inl e ↦ rw (present, e) (Mem-present f a b xs m k)
    | inr (c, e) ↦ rw (present, e) (tail (Mem-present f a b xs m k))
  ]

  pub length-select-select :
      (p q w : A → Bool)
      → ((a : A) → q a ≡ true → p a ≡ true → w a ≡ true)
      → (xs : List A) → length (select p (select q xs)) ≤ length (select w xs)
  length-select-select p q w f [] = omega arith
  length-select-select p q w f (x ∷ xs) = ground (arith, f x, length-select-select p q w f xs)

  module _ (before : A → A → Bool) where
    Mem-insert_row : (a x : A) (xs : List A) → Memᴰ a (x ∷ xs) → Memᴰ a (insert_row before x xs)
    Mem-insert_row a x [] m = m
    Mem-insert_row a x (y ∷ ys) (head e) = elim (Bool-cases (before x y)) [
      | inl k ↦ rw k (head e)
      | inr k ↦ rw k (tail (Mem-insert_row a x ys (head e)))
    ]
    Mem-insert_row a x (y ∷ ys) (tail (head e)) = elim (Bool-cases (before x y)) [
      | inl k ↦ rw k (tail (head e))
      | inr k ↦ rw k (head e)
    ]
    Mem-insert_row a x (y ∷ ys) (tail (tail m)) = elim (Bool-cases (before x y)) [
      | inl k ↦ rw k (tail (tail m))
      | inr k ↦ rw k (tail (Mem-insert_row a x ys (tail m)))
    ]

    pub Mem-order_by : (a : A) (xs : List A) → Memᴰ a xs → Memᴰ a (order_by before xs)
    Mem-order_by a [] m = elim m [ ]
    Mem-order_by a (x ∷ xs) (head e) = Mem-insert_row a x (order_by before xs) (head e)
    Mem-order_by a (x ∷ xs) (tail m) =
        Mem-insert_row a x (order_by before xs) (tail (Mem-order_by a xs m))

    length-select-insert_row :
        (p : A → Bool) (x : A) (xs : List A)
        → length (select p (insert_row before x xs)) ≡ length (select p (x ∷ xs))
    length-select-insert_row p x [] = refl
    length-select-insert_row p x (y ∷ ys) = ground (arith, length-select-insert_row p x ys)

    pub length-select-order_by :
        (p : A → Bool) (xs : List A) → length (select p (order_by before xs)) ≡ length (select p xs)
    length-select-order_by p [] = refl
    length-select-order_by p (x ∷ xs) =
        ground
          (arith, length-select-insert_row p x (order_by before xs), length-select-order_by p xs)

    -- A row in order is among the first `n`, or `n` rows come before it or are level with it.
    pub taken_or_full :
        (n : ℕ) (a : A) (xs : List A)
        → before a a ≡ true
        → IsOrdered before xs
        → Memᴰ a xs
        → Memᴰ a (take n xs) ⊎ (n ≤ length (select (λ x. before x a) xs))
    taken_or_full zero a xs r o m = inr (omega arith)
    taken_or_full (suc n) a [] r o m = elim m [ ]
    taken_or_full (suc n) a (x ∷ xs) r o (head e) = inl (head e)
    taken_or_full (suc n) a (x ∷ xs) r o (tail m) =
        let first : before x a ≡ true = All-Mem (λ b. before x b ≡ true) a xs o.0 m in
        elim (taken_or_full n a xs r o.1 m) [ inl k ↦ inl (tail k) | inr k ↦ inr (ground (arith)) ]
