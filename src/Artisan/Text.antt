-- ===== src/Artisan/Text.antt =====
-- `parse_artisan_alog` of crates/server/src/services.rs: the Python literals that are made JSON, by
-- functions of the standard library on texts.
use Prim.Native.Char.{code}
use Prim.Native.String.{[], ◌∷◌}
use rust_roast.Prelude.{
  ℕ, zero, suc, ◌-◌, String, Bool, true, false, ◌&&◌, ◌||◌, not, List, [], ◌∷◌, nat_eq, leb,
  if◌then◌else◌, select, ◌≡◌, refl,
}
use rust_roast.Topics.{◌++◌, push_front}

-- `s.starts_with(prefix)`
unfoldable pub starts_with : String → String → Bool
starts_with [] s = true
starts_with (p ∷ ps) [] = false
starts_with (p ∷ ps) (c ∷ s) = nat_eq (code p) (code c) && starts_with ps s

unfoldable pub length : String → ℕ
length [] = 0
length (c ∷ s) = suc (length s)

-- The text from here on, of which the first characters belong to a match that is replaced already.
unfoldable pub replace_from : String → String → ℕ → String → String
unfolding starts_with length
replace_from pattern new skip [] = ""
replace_from pattern new (suc skip) (c ∷ s) = replace_from pattern new skip s
replace_from pattern new zero (c ∷ s) =
    let kept = replace_from pattern new zero s in
    let rest = replace_from pattern new (length pattern - 1) s in
    if starts_with pattern (c ∷ s) then new ++ rest else c ∷ kept

-- `s.replace(pattern, new)` of a pattern that is not empty.
unfoldable pub replace : String → String → String → String
unfolding replace_from
replace pattern new s = replace_from pattern new 0 s

-- The pieces between the line ends.
unfoldable pub split_lines : String → List String
split_lines [] = "" ∷ []
split_lines (c ∷ s) =
    let pieces = split_lines s in if nat_eq (code c) 10 then "" ∷ pieces else push_front c pieces

-- A line loses the carriage return at its end.
unfoldable pub strip_return : String → String
strip_return [] = ""
strip_return (c ∷ []) = if nat_eq (code c) 13 then "" else c ∷ []
strip_return (c ∷ d ∷ s) = c ∷ strip_return (d ∷ s)

-- The last piece is a line only if something stands in it.
unfoldable pub ended : List String → List String
unfolding strip_return
ended [] = []
ended (last ∷ []) = elim last as (λ s. List String) [ [] ↦ [] | c ∷ s ↦ (c ∷ s) ∷ [] ]
ended (piece ∷ next ∷ pieces) = strip_return piece ∷ ended (next ∷ pieces)

-- `s.lines()`
unfoldable pub lines : String → List String
unfolding split_lines ended
lines s = ended (split_lines s)

-- `char::is_whitespace`
abbrev pub is_whitespace : ℕ → Bool
is_whitespace c =
    (leb 9 c && leb c 13)
    || (nat_eq c 32
        || (nat_eq c 133
            || (nat_eq c 160
                || (nat_eq c 5760
                    || ((leb 8192 c && leb c 8202)
                        || (nat_eq c 8232
                            || (nat_eq c 8233
                                || (nat_eq c 8239 || (nat_eq c 8287 || nat_eq c 12288)))))))))

-- `line.trim_start().starts_with('#')`
unfoldable pub is_comment : String → Bool
is_comment [] = false
is_comment (c ∷ s) =
    let rest = is_comment s in if is_whitespace (code c) then rest else nat_eq (code c) b'#'

-- `join("\n")`
unfoldable pub join : List String → String
join [] = ""
join (line ∷ []) = line
join (line ∷ next ∷ rest) = line ++ "\n" ++ join (next ∷ rest)

unfoldable pub json_content : String → String
unfolding replace lines is_comment join
json_content content = join (
    select (λ line. not (is_comment line))
      (lines (
        replace "'" "\"" (
          replace ")" "]" (
            replace "(" "["
              (replace "None" "null" (replace "False" "false" (replace "True" "true" content))))))))

python_literals :
    json_content "# Artisan\r\n{'title': 'Guji', 'timex': (0.0, 1.5), 'x': None}\n"
    ≡ "{\"title\": \"Guji\", \"timex\": [0.0, 1.5], \"x\": null}"
unfolding json_content
python_literals = refl
