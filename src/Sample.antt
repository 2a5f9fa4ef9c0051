-- ===== src/Sample.antt =====
-- A host whose floats are integers and whose JSON values are trees: the interface can be met.
use rust_roast.Prelude.{
  ℕ, suc, ◌+◌, ◌-◌, ◌*◌, ◌/◌, ◌%◌, ◌^◌, ◌<◌, String, Bool, Option, none, some, List, [], ◌∷◌, ℤ,
  pos, negsuc, leb, ltb, max, str_eq, if◌then◌else◌, to_decimal, arith,
}
use rust_roast.Host.{Host}

abbrev pub pos_part : ℤ → ℕ
pos_part (pos n) = n
pos_part (negsuc n) = 0

abbrev pub neg_part : ℤ → ℕ
neg_part (pos n) = 0
neg_part (negsuc n) = suc n

abbrev pub plus : ℤ → ℤ → ℤ
plus (pos a) (pos b) = pos (a + b)
plus a b = pos (pos_part a + pos_part b - (neg_part a + neg_part b))

-- The number `a - b` of two natural numbers.
abbrev pub difference : ℕ → ℕ → ℤ
difference a b = if ltb a b then negsuc (b - a - 1) else pos (a - b)

abbrev pub minus : ℤ → ℤ → ℤ
minus a b = difference (pos_part a + neg_part b) (pos_part b + neg_part a)

abbrev pub times : ℤ → ℤ → ℤ
times a b =
    difference (pos_part a * pos_part b + neg_part a * neg_part b)
      (pos_part a * neg_part b + neg_part a * pos_part b)

abbrev pub le_ℤ : ℤ → ℤ → Bool
le_ℤ a b = leb (pos_part a + neg_part b) (pos_part b + neg_part a)

mutual
  pub data SampleValue : Type 0 where
    null : SampleValue
    num : ℤ → SampleValue
    text : String → SampleValue
    array : SampleArray → SampleValue
    fields : SampleFields → SampleValue

  pub data SampleArray : Type 0 where
    nil : SampleArray
    cons : SampleValue → SampleArray → SampleArray

  pub data SampleFields : Type 0 where
    empty : SampleFields
    field : String → SampleValue → SampleFields → SampleFields

abbrev pub to_list : SampleArray → List SampleValue
to_list nil = []
to_list (cons v vs) = v ∷ to_list vs

abbrev pub of_list : List SampleValue → SampleArray
of_list [] = nil
of_list (v ∷ vs) = cons v (of_list vs)

abbrev pub of_dict : List (String × SampleValue) → SampleFields
of_dict [] = empty
of_dict ((k, v) ∷ fs) = field k v (of_dict fs)

abbrev pub lookup_field : String → SampleFields → Option SampleValue
lookup_field k empty = none
lookup_field k (field name v fs) =
    let rest = lookup_field k fs in if str_eq name k then some v else rest

abbrev pub value_at : SampleValue → String → Option SampleValue
value_at (fields fs) k = lookup_field k fs
value_at _ k = none

abbrev pub elements : SampleValue → Option (List SampleValue)
elements (array vs) = some (to_list vs)
elements _ = none

-- An object of numbers.
abbrev pub number_fields : List (String × ℤ) → SampleFields
number_fields [] = empty
number_fields ((k, z) ∷ fs) = field k (num z) (number_fields fs)

abbrev pub object : List (String × ℤ) → SampleValue
object fs = fields (number_fields fs)

abbrev pub number : SampleValue → Option ℤ
number (num z) = some z
number _ = none

abbrev pub natural : SampleValue → Option ℕ
natural (num (pos n)) = some n
natural _ = none

abbrev pub words : SampleValue → Option String
words (text s) = some s
words _ = none

abbrev total : List ℕ → ℕ
total [] = 0
total (n ∷ ns) = n + total ns

-- A payload of one byte is a number, and one of two bytes the text `{}`.
abbrev read_bytes : List ℕ → Option SampleValue
read_bytes (b ∷ []) = some (num (pos b))
read_bytes (b ∷ c ∷ []) = some (text "{}")
read_bytes _ = none

pub word_lt : (z : ℤ) → pos_part z % 2 ^ 32 < 2 ^ 32
word_lt z = omega arith

abbrev pub sample : Host
sample = record {
  F64 = ℤ;
  of_int = λ z. z;
  of_f32 = λ n. pos n;
  to_f32 = λ z. pos_part z % 2 ^ 32;
  to_i64 = λ z. z;
  mul = times;
  add = plus;
  div = λ a b. pos (pos_part a / pos_part b);
  round = λ z. z;
  le = le_ℤ;
  f32_of_int = pos_part;
  f32_to_i32 = λ n. pos n;
  f32_sub = λ a b. a - b;
  f32_mul = λ a b. a * b;
  f32_div = λ a b. a / b;
  f32_max = max;
  f32_sum = total;
  f32_lt = ltb;
  f32_le = leb;
  parse_f32 = λ s. none;
  avg = λ ns. elim ns [ [] ↦ 0 | n ∷ ms ↦ n ];
  show_f64 = λ z. to_decimal (pos_part z);
  show_f32 = to_decimal;
  Value = SampleValue;
  get = value_at;
  as_f64 = number;
  as_u64 = natural;
  as_i64 = number;
  as_str = words;
  of_i64 = num;
  of_f64 = num;
  of_str = text;
  to_json = λ v. "{}";
  from_json = λ s. some (text s);
  from_slice = read_bytes;
  from_utf8_lossy = λ bytes. "{}";
  to_lowercase = λ s. s;
  of_object = λ fs. fields (of_dict fs);
  as_array = elements;
  null = SampleValue.null;
  of_array = λ vs. array (of_list vs);
  to_i32 = λ z. z;
  sub = minus;
  abs = λ z. pos (pos_part z + neg_part z);
  to_f32_lt = word_lt;
}
