-- ===== src/Sessions/Queries/Listing.antt =====
-- What the list of the sessions has.
use rust_roast.Prelude.{
  ℕ, ℤ, pos, negsuc, suc, ◌≤◌, String, Bool, true, false, List, [], ◌∷◌, Option, none, some, ◌≡◌,
  refl, arith, select, any, take, length, All, All-select, zero,
}
use rust_roast.Models.SessionRows.{RoastSession}
use rust_roast.Tables.{order_by}
use rust_roast.Tables.Sorted.{
  IsOrdered, IsOrdered-IsSorted, order_by-IsSorted, take-IsOrdered, All-take, All-order_by,
  any-order_by,
}
use rust_roast.Sessions.{Db}
use rust_roast.Sessions.Queries.{limited, newer, of_device, list_sessions}

trivially_all : (q : RoastSession → Bool) (rows : List RoastSession) → All (λ s. Unit {0}) rows
trivially_all q [] = tt
trivially_all q (s ∷ rows) = (tt, trivially_all q rows)

pub selected :
    (q : RoastSession → Bool) (rows : List RoastSession) → All (λ s. q s ≡ true) (select q rows)
selected q rows =
    All-select (λ s. Unit {0}) (λ s. q s ≡ true) q (λ s e v. e) rows (trivially_all q rows)

-- The number of rows that a limit allows.
abbrev pub Within : Option ℤ → ℕ → Type 0
Within none n = Unit
Within (some (pos k)) n = n ≤ k
Within (some (negsuc k)) n = Unit

abbrev pub unlimited : Option ℤ → Bool
unlimited none = true
unlimited (some (pos k)) = false
unlimited (some (negsuc k)) = true

-- A list of sessions: of the device if one is given, each before the older ones, no more of them
-- than the limit, and without a limit all that there are.
pub record IsListing (db : Db) (device_id : Option String) (limit : Option ℤ)
    (rows : List RoastSession) : Type 0 where
  pub ordered : IsOrdered newer rows
  pub own : All (λ s. of_device device_id s ≡ true) rows
  pub within : Within limit (length rows)
  pub complete :
      unlimited limit ≡ true
      → (p : RoastSession → Bool)
      → any p rows ≡ any p (select (of_device device_id) db.roast_sessions)

newer_total : (a b : RoastSession) → newer a b ≡ false → newer b a ≡ true
newer_total a b e = ground arith

newer_trans : (a b c : RoastSession) → newer a b ≡ true → newer b c ≡ true → newer a c ≡ true
newer_trans a b c e f = ground arith

length-take : {A : Type 0} (n : ℕ) (xs : List A) → length (take n xs) ≤ n
length-take zero xs = omega arith
length-take (suc n) [] = omega arith
length-take (suc n) (x ∷ xs) = omega (arith, length-take n xs)

module _ {ℓ} (P : RoastSession → Type ℓ) where
  All-limited :
      (limit : Option ℤ) (rows : List RoastSession) → All P rows → All P (limited limit rows)
  All-limited none rows v = v
  All-limited (some (pos n)) rows v = All-take P n rows v
  All-limited (some (negsuc n)) rows v = v

limited-IsOrdered :
    (limit : Option ℤ) (rows : List RoastSession)
    → IsOrdered newer rows
    → IsOrdered newer (limited limit rows)
limited-IsOrdered none rows v = v
limited-IsOrdered (some (pos n)) rows v = take-IsOrdered newer n rows v
limited-IsOrdered (some (negsuc n)) rows v = v

limited-Within :
    (limit : Option ℤ) (rows : List RoastSession) → Within limit (length (limited limit rows))
limited-Within none rows = tt
limited-Within (some (pos n)) rows = length-take n rows
limited-Within (some (negsuc n)) rows = tt

limited-all :
    (limit : Option ℤ) (rows : List RoastSession)
    → unlimited limit ≡ true
    → limited limit rows ≡ rows
limited-all none rows e = refl
limited-all (some (pos n)) rows e = cc
limited-all (some (negsuc n)) rows e = refl

-- The list of the sessions, of one device or of all, with a limit or without: each session before
-- the older ones, all of the device if one is given, no more than the limit, and without a limit,
-- or with a negative one, all that there are.
pub list_sessions-IsListing :
    (db : Db) (device_id : Option String) (limit : Option ℤ)
    → IsListing db device_id limit (list_sessions db device_id limit)
unfolding list_sessions
list_sessions-IsListing db device_id limit =
    let rows = select (of_device device_id) db.roast_sessions in
    record {
      ordered = limited-IsOrdered limit (order_by newer rows) (
          IsOrdered-IsSorted newer newer_trans (order_by newer rows)
            (order_by-IsSorted newer newer_total rows));
      own =
          All-limited (λ s. of_device device_id s ≡ true) limit (order_by newer rows)
            (All-order_by (λ s. of_device device_id s ≡ true) newer rows
              (selected (of_device device_id) db.roast_sessions));
      within = limited-Within limit (order_by newer rows);
      complete = λ e p. rw (limited-all limit (order_by newer rows) e) (any-order_by p newer rows);
    }
