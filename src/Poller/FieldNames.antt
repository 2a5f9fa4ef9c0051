-- ===== src/Poller/FieldNames.antt =====
-- What `normalize_field_names` leaves of a payload.
use rust_roast.Prelude.{
  String, Bool, false, List, [], ◌∷◌, ◌++◌, Option, none, some, ◌≡◌, refl, arith, str_eq,
  str_eq_refl, Dict, lookup, remove, lookup-insert, lookup-remove, Option-cases, inl, inr, All,
  append_assoc, ◌||◌, any,
}
use rust_roast.Poller.{mappings, rename, rename_all, normalize_field_names}

-- The first of two values that is there.
abbrev pub or_else {ℓ} : {A : Type ℓ} → Option A → Option A → Option A
or_else none b = b
or_else (some a) b = some a

-- A name that no pair of the list mentions.
abbrev pub mentions : String → List (String × String) → Bool
mentions k ms = any (λ m. str_eq m.0 k || str_eq m.1 k) ms

-- Whether a name stands twice, with `xs` in front.
abbrev clashes : List (String × String) → List (String × String) → Bool
clashes xs [] = false
clashes xs ((a, b) ∷ ys) =
    (mentions a xs || mentions b xs || mentions a ys || mentions b ys)
    || (str_eq a b || str_eq b a)
    || clashes (xs ++ (a, b) ∷ []) ys

module _ {V : Type 0} where
  rename-other :
      (a b k : String) (p : Dict V)
      → str_eq a k ≡ false
      → str_eq b k ≡ false
      → lookup k (rename a b p) ≡ lookup k p
  unfolding rename
  rename-other a b k p ea eb = elim (Option-cases (lookup a p)) [
    | inl e ↦ rw (e, rename)
    | inr (v, e) ↦
        rw (e, rename) (rw (lookup-insert b k v (remove a p), eb, lookup-remove a k p, ea))
  ]

  rename-old : (a b : String) (p : Dict V) → str_eq b a ≡ false → lookup a (rename a b p) ≡ none
  unfolding rename
  rename-old a b p e = elim (Option-cases (lookup a p)) [
    | inl n ↦ rw (n, rename) n
    | inr (v, n) ↦
        rw (n, rename)
          (rw (lookup-insert b a v (remove a p), e, lookup-remove a a p, str_eq_refl a))
  ]

  rename-new :
      (a b : String) (p : Dict V)
      → str_eq a b ≡ false
      → lookup b (rename a b p) ≡ or_else (lookup a p) (lookup b p)
  unfolding rename
  rename-new a b p e = elim (Option-cases (lookup a p)) [
    | inl n ↦ rw (n, rename) refl
    | inr (v, n) ↦ rw (n, rename) (rw (lookup-insert b b v (remove a p), str_eq_refl b))
  ]

  rename_all-cons :
      (a b : String) (ms : List (String × String)) (p : Dict V)
      → rename_all ((a, b) ∷ ms) p ≡ rename_all ms (rename a b p)
  unfolding rename_all
  rename_all-cons a b ms p = refl

  rename_all-other :
      (k : String) (ms : List (String × String)) (p : Dict V)
      → mentions k ms ≡ false
      → lookup k (rename_all ms p) ≡ lookup k p
  unfolding rename_all
  rename_all-other k [] p e = refl
  rename_all-other k ((a, b) ∷ ms) p e =
      ground (arith, rename_all-other k ms (rename a b p), rename-other a b k p)

  rename_all-append :
      (xs ys : List (String × String)) (p : Dict V)
      → rename_all (xs ++ ys) p ≡ rename_all ys (rename_all xs p)
  unfolding rename_all
  rename_all-append [] ys p = refl
  rename_all-append ((a, b) ∷ xs) ys p = rename_all-append xs ys (rename a b p)

  -- The value under either name stands under the new one, and nothing under the old one.
  abbrev pub IsRenamed : Dict V → Dict V → String × String → Type 0
  IsRenamed p q (snake, camel) =
      (lookup snake q ≡ none) × (lookup camel q ≡ or_else (lookup snake p) (lookup camel p))

  renamed :
      (xs : List (String × String)) (a b : String) (ys : List (String × String)) (p : Dict V)
      → mentions a xs || mentions b xs || mentions a ys || mentions b ys ≡ false
      → str_eq a b || str_eq b a ≡ false
      → IsRenamed p (rename_all (xs ++ (a, b) ∷ ys) p) (a, b)
  renamed xs a b ys p e f = ground (
    arith,
    rename_all-append xs ((a, b) ∷ ys) p,
    rename_all-cons a b ys (rename_all xs p),
    rename_all-other a ys (rename a b (rename_all xs p)),
    rename_all-other b ys (rename a b (rename_all xs p)),
    rename_all-other a xs p,
    rename_all-other b xs p,
    rename-old a b (rename_all xs p),
    rename-new a b (rename_all xs p),
  )

  IsRenamed-from :
      (xs ys : List (String × String)) (p : Dict V)
      → clashes xs ys ≡ false
      → All (IsRenamed p (rename_all (xs ++ ys) p)) ys
  IsRenamed-from xs [] p e = tt
  IsRenamed-from xs ((a, b) ∷ ys) p e =
      let rest = IsRenamed-from (xs ++ (a, b) ∷ []) ys p (ground arith) in
      (
        renamed xs a b ys p (ground arith) (ground arith),
        rw (append_assoc xs ((a, b) ∷ []) ys) at rest,
      )

  -- After the normalization of a payload, for each of the twelve pairs of names: nothing is left
  -- under the snake_case name, and the camelCase name has the value that the snake_case name had,
  -- or else its own.
  pub normalize_field_names-renames :
      (p : Dict V) → All (IsRenamed p (normalize_field_names p)) mappings
  unfolding normalize_field_names
  normalize_field_names-renames p = IsRenamed-from [] mappings p refl

  -- Any other name keeps its value.
  pub normalize_field_names-other :
      (k : String) (p : Dict V)
      → mentions k mappings ≡ false
      → lookup k (normalize_field_names p) ≡ lookup k p
  unfolding normalize_field_names
  normalize_field_names-other k p e = rename_all-other k mappings p e
