-- ===== src/Tables.antt =====
-- A table of the database as a list of rows, with what the statements of the services do to it.
pub mod Owned
pub mod Sorted
pub mod Inserts
pub mod Members
use rust_roast.Prelude.{
  String, Bool, true, false, ◌||◌, not, List, [], ◌∷◌, ◌++◌, Option, none, some, ◌≡◌, refl, sym,
  subst, arith, str_eq, eq_iff, if◌then◌else◌, Bool-cases, inl, inr, All, select, find, any,
}

abbrev pub is_none {ℓ} : {A : Type ℓ} → Option A → Bool
is_none none = true
is_none (some a) = false

-- `COALESCE(?, column)` of a column that is not NULL, and of one that may be.
abbrev pub keep_or {ℓ} : {A : Type ℓ} → Option A → A → A
keep_or none old = old
keep_or (some new) old = new

abbrev pub or_else {ℓ} : {A : Type ℓ} → Option A → Option A → Option A
or_else none b = b
or_else (some a) b = some a

module _ {ℓ} {A : Type ℓ} where
  -- `UPDATE … SET … WHERE …`
  abbrev pub update_rows : (A → Bool) → (A → A) → List A → List A
  update_rows p f [] = []
  update_rows p f (x ∷ xs) = (if p x then f x else x) ∷ update_rows p f xs

  -- `DELETE … WHERE …`
  abbrev pub delete_rows : (A → Bool) → List A → List A
  delete_rows p xs = select (λ x. not (p x)) xs

  -- `ORDER BY`, by a test for "comes before or is level"; rows that are level keep their order.
  abbrev pub insert_row : (A → A → Bool) → A → List A → List A
  insert_row before a [] = a ∷ []
  insert_row before a (b ∷ bs) =
      let rest = insert_row before a bs in if before a b then a ∷ b ∷ bs else b ∷ rest

  abbrev pub order_by : (A → A → Bool) → List A → List A
  order_by before [] = []
  order_by before (a ∷ as') = insert_row before a (order_by before as')

  pub All-update_rows {κ} :
      (P : A → Type κ) (p : A → Bool) (f : A → A)
      → ((x : A) → p x ≡ true → P x → P (f x))
      → (xs : List A) → All P xs
      → All P (update_rows p f xs)
  All-update_rows P p f step [] a = tt
  All-update_rows P p f step (x ∷ xs) a = elim (Bool-cases (p x)) [
    | inl e ↦ rw e (step x e a.0, All-update_rows P p f step xs a.1)
    | inr e ↦ rw e (a.0, All-update_rows P p f step xs a.1)
  ]

  -- A statement whose condition holds of no row changes nothing.
  pub delete_rows-none : (p : A → Bool) (xs : List A) → any p xs ≡ false → delete_rows p xs ≡ xs
  delete_rows-none p [] e = refl
  delete_rows-none p (x ∷ xs) e = ground (arith, delete_rows-none p xs)

  pub update_rows-none :
      (p : A → Bool) (f : A → A) (xs : List A) → any p xs ≡ false → update_rows p f xs ≡ xs
  update_rows-none p f [] e = refl
  update_rows-none p f (x ∷ xs) e = ground (arith, update_rows-none p f xs)

  pub any-find : (p : A → Bool) (xs : List A) → find p xs ≡ none → any p xs ≡ false
  any-find p [] e = refl
  any-find p (x ∷ xs) e = ground (arith, any-find p xs)

  -- The row that is appended, when no other passes the test.
  pub find-append :
      (p : A → Bool) (xs : List A) (x : A)
      → find p xs ≡ none
      → p x ≡ true
      → find p (xs ++ x ∷ []) ≡ some x
  find-append p [] x e k = rw k refl
  find-append p (y ∷ xs) x e k = ground (arith, find-append p xs x)

  pub select-append_new :
      (p : A → Bool) (xs : List A) (x : A)
      → any p xs ≡ false
      → p x ≡ true
      → select p (xs ++ x ∷ []) ≡ x ∷ []
  select-append_new p [] x e k = rw k refl
  select-append_new p (y ∷ xs) x e k = ground (arith, select-append_new p xs x)

  pub any_none : (p : A → Bool) (xs : List A) → All (λ x. p x ≡ false) xs → any p xs ≡ false
  any_none p [] a = refl
  any_none p (x ∷ xs) a = rw a.0 (any_none p xs a.1)

  -- A key of the rows: a text column with a test for a value of it.
  module _ (key : A → String) where
    abbrev pub keyed : String → A → Bool
    keyed k x = str_eq (key x) k

    -- `PRIMARY KEY`, `UNIQUE`: no key stands in two rows.
    abbrev pub Unique : List A → Type 0
    Unique [] = Unit
    Unique (x ∷ xs) = (any (keyed (key x)) xs ≡ false) × Unique xs

    kept_key :
        (f : A → A)
        → ((x : A) → key (f x) ≡ key x)
        → (k : String) (x : A) → keyed k (f x) ≡ keyed k x
    kept_key f same k x = subst (λ t. str_eq t k ≡ keyed k x) (sym (same x)) refl

    module _ (p : A → Bool) (f : A → A) (same : (x : A) → key (f x) ≡ key x) where
      pub any-update_rows :
          (k : String) (xs : List A) → any (keyed k) (update_rows p f xs) ≡ any (keyed k) xs
      any-update_rows k [] = refl
      any-update_rows k (x ∷ xs) = elim (Bool-cases (p x)) [
        | inl e ↦ rw (e, kept_key f same k x, any-update_rows k xs)
        | inr e ↦ rw (e, any-update_rows k xs)
      ]

      pub Unique-update_rows : (xs : List A) → Unique xs → Unique (update_rows p f xs)
      Unique-update_rows [] u = tt
      Unique-update_rows (x ∷ xs) u = elim (Bool-cases (p x)) [
        | inl e ↦ rw e (
          subst (λ t. any (keyed t) (update_rows p f xs) ≡ false) (sym (same x))
              (rw (any-update_rows (key x) xs) (u.0)),
          Unique-update_rows xs u.1,
        )
        | inr e ↦ rw e (rw (any-update_rows (key x) xs) (u.0), Unique-update_rows xs u.1)
      ]

    any-append :
        (k : String) (xs : List A) (x : A)
        → any (keyed k) (xs ++ x ∷ []) ≡ any (keyed k) xs || keyed k x
    any-append k [] x = ground arith
    any-append k (y ∷ xs) x = ground (arith, any-append k xs x)

    -- A row that is there stays there.
    pub any-append_left :
        (k : String) (xs : List A) (x : A)
        → any (keyed k) xs ≡ true
        → any (keyed k) (xs ++ x ∷ []) ≡ true
    any-append_left k xs x e = rw (any-append k xs x, e)

    pub any-append_new : (xs : List A) (x : A) → any (keyed (key x)) (xs ++ x ∷ []) ≡ true
    any-append_new xs x = ground (arith, any-append (key x) xs x, eq_iff (key x) (key x))

    -- A row under a new key keeps the keys apart.
    pub Unique-append :
        (xs : List A) (x : A) → Unique xs → any (keyed (key x)) xs ≡ false → Unique (xs ++ x ∷ [])
    Unique-append [] x u e = (refl, tt)
    Unique-append (y ∷ xs) x u e = (
      ground (arith, any-append (key y) xs x, eq_iff (key x) (key y), eq_iff (key y) (key x)),
      Unique-append xs x u.1 (ground arith),
    )

    any-select :
        (k : String) (q : A → Bool) (xs : List A)
        → any (keyed k) xs ≡ false
        → any (keyed k) (select q xs) ≡ false
    any-select k q [] e = refl
    any-select k q (x ∷ xs) e = ground (arith, any-select k q xs)

    pub Unique-select : (q : A → Bool) (xs : List A) → Unique xs → Unique (select q xs)
    Unique-select q [] u = tt
    Unique-select q (x ∷ xs) u = elim (Bool-cases (q x)) [
      | inl e ↦ rw e (any-select (key x) q xs u.0, Unique-select q xs u.1)
      | inr e ↦ rw e (Unique-select q xs u.1)
    ]

    -- Deleting the rows of one key leaves those of another.
    pub any-delete_rows :
        (k j : String) (xs : List A)
        → str_eq k j ≡ false
        → any (keyed k) xs ≡ true
        → any (keyed k) (delete_rows (keyed j) xs) ≡ true
    any-delete_rows k j [] n e = cc
    any-delete_rows k j (x ∷ xs) n e =
        ground (arith, any-delete_rows k j xs n, eq_iff k j, eq_iff (key x) j, eq_iff (key x) k)
