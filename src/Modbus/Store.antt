-- ===== src/Modbus/Store.antt =====
-- The store loop of `write_registers` replaces a segment, and a slice reads the segment back.
use native.Mathlib.Nat.{add-zero}
use native.Mathlib.Numerals.{add-one}
use rust_roast.Prelude.{
  ℕ, zero, suc, ◌+◌, ◌-◌, ◌≤◌, ◌<◌, ◌≡◌, refl, ap, List, [], ◌∷◌, ◌++◌, some, length, set, take,
  drop, arith, length-set, length-append, append_assoc, append-nil, sym,
}
use rust_roast.Modbus.{store, slice}

-- The registers with the values in place of what stood from the address on.
abbrev pub overwrite : List ℕ → ℕ → List ℕ → List ℕ
overwrite regs addr vs = take addr regs ++ vs ++ drop (addr + length vs) regs

take-set :
    (regs : List ℕ) (i v : ℕ)
    → i < length regs
    → take (suc i) (set regs i v) ≡ take i regs ++ v ∷ []
take-set [] i v h = elim h [ ]
take-set (x ∷ xs) zero v h = refl
take-set (x ∷ xs) (suc i) v h = ap (◌∷◌ x) (take-set xs i v (omega arith))

drop-set : (regs : List ℕ) (i k v : ℕ) → i < k → drop k (set regs i v) ≡ drop k regs
drop-set [] i k v h = refl
drop-set (x ∷ xs) i zero v h = elim h [ ]
drop-set (x ∷ xs) zero (suc k) v h = refl
drop-set (x ∷ xs) (suc i) (suc k) v h = drop-set xs i k v (omega arith)

take-append-drop : (n : ℕ) (xs : List ℕ) → take n xs ++ drop n xs ≡ xs
take-append-drop zero xs = refl
take-append-drop (suc n) [] = refl
take-append-drop (suc n) (x ∷ xs) = ap (◌∷◌ x) (take-append-drop n xs)

step-overwrite :
    (regs : List ℕ) (addr v : ℕ) (vs : List ℕ)
    → addr < length regs
    → overwrite (set regs addr v) (addr + 1) vs ≡ overwrite regs addr (v ∷ vs)
step-overwrite regs addr v vs h =
    let e : addr + 1 + length vs ≡ addr + suc (length vs) = omega arith in
    rw (
      e,
      add-one addr,
      take-set regs addr v h,
      append_assoc (take addr regs) (v ∷ []) vs,
      drop-set regs addr (addr + suc (length vs)) v (omega arith),
    )

pub store-overwrite :
    (regs : List ℕ) (addr : ℕ) (vs : List ℕ)
    → addr + length vs ≤ length regs
    → store regs addr vs ≡ some (overwrite regs addr vs)
unfolding store
store-overwrite regs addr [] h =
    rw (add-zero addr, append-nil (take addr regs), take-append-drop addr regs)
store-overwrite regs addr (v ∷ vs) h = ground (
  arith,
  store-overwrite (set regs addr v) (addr + 1) vs,
  length-set regs addr v,
  step-overwrite regs addr v vs,
)

length-take : (n : ℕ) (xs : List ℕ) → n ≤ length xs → length (take n xs) ≡ n
length-take zero xs h = refl
length-take (suc n) [] h = elim h [ ]
length-take (suc n) (x ∷ xs) h = ap suc (length-take n xs (omega arith))

length-drop : (n : ℕ) (xs : List ℕ) → length (drop n xs) ≡ length xs - n
length-drop zero xs = omega arith
length-drop (suc n) [] = omega arith
length-drop (suc n) (x ∷ xs) = omega (arith, length-drop n xs)

pub length-overwrite :
    (regs : List ℕ) (addr : ℕ) (vs : List ℕ)
    → addr + length vs ≤ length regs
    → length (overwrite regs addr vs) ≡ length regs
length-overwrite regs addr vs h = omega (
  arith,
  length-append (take addr regs ++ vs) (drop (addr + length vs) regs),
  length-append (take addr regs) vs,
  length-take addr regs (omega arith),
  length-drop (addr + length vs) regs,
)

take-append : (xs ys : List ℕ) → take (length xs) (xs ++ ys) ≡ xs
take-append [] ys = refl
take-append (x ∷ xs) ys = ap (◌∷◌ x) (take-append xs ys)

drop-append : (xs ys : List ℕ) → drop (length xs) (xs ++ ys) ≡ ys
drop-append [] ys = refl
drop-append (x ∷ xs) ys = drop-append xs ys

-- A slice within the list does not panic.
pub slice-some :
    (xs : List ℕ) (start end : ℕ)
    → start ≤ end
    → end ≤ length xs
    → slice xs start end ≡ some (take (end - start) (drop start xs))
unfolding slice
slice-some xs start end h k = ground arith

take-drop-middle :
    {n m : ℕ} (xs ys zs : List ℕ)
    → n ≡ length xs
    → m ≡ length ys
    → take m (drop n (xs ++ ys ++ zs)) ≡ ys
take-drop-middle xs ys zs p q =
    rw (p, q, append_assoc xs ys zs, drop-append xs (ys ++ zs), take-append ys zs)

-- What was written is read back.
pub take-drop-overwrite :
    (regs : List ℕ) (addr : ℕ) (vs : List ℕ)
    → addr + length vs ≤ length regs
    → take (length vs) (drop addr (overwrite regs addr vs)) ≡ vs
take-drop-overwrite regs addr vs h =
    take-drop-middle (take addr regs) vs (drop (addr + length vs) regs)
      (sym (length-take addr regs (omega arith))) refl

-- The register at an address below the length.
abbrev pub reg : List ℕ → ℕ → ℕ
reg [] i = 0
reg (x ∷ xs) zero = x
reg (x ∷ xs) (suc i) = reg xs i

reg-middle :
    (n : ℕ) (xs : List ℕ) (v : ℕ) (ys : List ℕ) → n ≡ length xs → reg (xs ++ v ∷ [] ++ ys) n ≡ v
reg-middle zero [] v ys e = refl
reg-middle zero (x ∷ xs) v ys e = absurd (omega arith)
reg-middle (suc n) [] v ys e = absurd (omega arith)
reg-middle (suc n) (x ∷ xs) v ys e = reg-middle n xs v ys (omega arith)

pub reg-overwrite :
    (regs : List ℕ) (addr v : ℕ) → addr < length regs → reg (overwrite regs addr (v ∷ [])) addr ≡ v
reg-overwrite regs addr v h =
    reg-middle addr (take addr regs) v (drop (addr + 1) regs)
      (sym (length-take addr regs (omega arith)))
