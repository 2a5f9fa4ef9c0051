-- ===== src/Csv/RoundTrip.antt =====
-- What a reader of an exported CSV file finds.
use Prim.Native.Char.{code}
use Prim.Native.String.{[], ◌∷◌}
use text.Mathlib.TextLemmas.{cons-append}
use rust_roast.Prelude.{
  ℕ, String, Bool, true, false, List, [], ◌∷◌, ◌++◌, map, Option, none, some, ◌≡◌, refl, ap, ◌∙◌,
  str_eq, nat_eq, select, Bool-cases, inl, inr, All, find, All-join, All-concat, append-nil,
}
use rust_roast.Prelude.Pieces.{commas, holds, split_on, holds-append, split_on-lined}
use rust_roast.Host.{Host}
use rust_roast.Topics as Topics
use rust_roast.Tables.{keep_or}
use rust_roast.Tables.Owned.{select-append}
use rust_roast.Models.SessionRows.{RoastSession, SessionTelemetry}
use rust_roast.Sessions.{Db, has_id, get_session, get_session_telemetry}
use rust_roast.Sessions.Summary.{option_map, order_by}
use rust_roast.Profiles as Profiles
use rust_roast.Csv.{
  columns, fields, header_parts, header_lines, line_of, bean_line, profile_line, profile_name,
  csv_of, export_csv,
}
use rust_roast.Csv.Printed.{printed, by_columns, all_printed}
use rust_roast.Csv.Rows.{is_row, read_csv, IsPlain, IsOneLine, rows-read, rows-one_lines}

-- What is written of a session stands on one line each.
pub record IsPrintable (h : Host) (show_time : ℕ → String) (session : RoastSession) (name : String)
    : Type 0 where
  pub numbers : (x : ℕ) → IsPlain (h.show_f32 x)
  pub times : (t : ℕ) → IsOneLine (show_time t)
  pub title : IsOneLine session.name
  pub origin : IsOneLine (keep_or session.bean_origin "")
  pub variety : IsOneLine (keep_or session.bean_variety "")
  pub profile : IsOneLine name

-- A line that a reader leaves out.
abbrev IsComment : String → Type 0
IsComment s = (is_row s ≡ false) × IsOneLine s

abbrev is_marked : String → Bool
is_marked [] = false
is_marked (c ∷ s) = nat_eq (code c) b'#'

append-IsComment :
    (p t : String) → is_marked p ≡ true → IsOneLine p → IsOneLine t → IsComment (Topics.◌++◌ p t)
append-IsComment [] t k e m = cc
append-IsComment (c ∷ s) t k e m =
    (rw (cons-append, k) refl, holds-append 10 (c ∷ s) t ∙ rw (e, m) refl)

one_line-append : (s t : String) → IsOneLine s → IsOneLine t → IsOneLine (Topics.◌++◌ s t)
one_line-append s t e m = holds-append 10 s t ∙ rw (e, m) refl

line_of-IsComment {ℓ} :
    {A : Type ℓ} (text : A → String) (o : Option A)
    → ((a : A) → o ≡ some a → IsComment (text a))
    → All IsComment (line_of text o)
line_of-IsComment text none f = tt
line_of-IsComment text (some a) f = (f a refl, tt)

select-comments : (ls : List String) → All IsComment ls → select is_row ls ≡ []
select-comments [] v = refl
select-comments (l ∷ ls) v = rw v.0.0 (select-comments ls v.1)

one_lines : (ls : List String) → All IsComment ls → All IsOneLine ls
one_lines [] v = tt
one_lines (l ∷ ls) v = (v.0.1, one_lines ls v.1)

module _ (h : Host) (plain : (x : ℕ) → IsPlain (h.show_f32 x)) where
  weight_lines :
      (label : String) (w : Option ℕ)
      → is_marked label ≡ true
      → IsOneLine label
      → All IsComment (line_of (λ g. Topics.◌++◌ label (Topics.◌++◌ (h.show_f32 g) "g")) w)
  unfolding holds
  weight_lines label w k e =
      line_of-IsComment (λ g. Topics.◌++◌ label (Topics.◌++◌ (h.show_f32 g) "g")) w
        (λ g f.
          append-IsComment label (Topics.◌++◌ (h.show_f32 g) "g") k e
            (one_line-append (h.show_f32 g) "g" (plain g).1.0 refl))

bean_lines :
    (variety origin : Option String)
    → IsOneLine (keep_or variety "")
    → IsOneLine (keep_or origin "")
    → All IsComment (line_of (bean_line variety) origin)
unfolding holds
bean_lines variety none v w = tt
bean_lines variety (some origin) v w = elim (Bool-cases (str_eq (keep_or variety "") "")) [
  | inl e ↦ rw e (append-IsComment "# Bean: " origin refl refl w, tt)
  | inr e ↦ rw e (
    append-IsComment "# Bean: "
        (Topics.◌++◌ origin (Topics.◌++◌ " (" (Topics.◌++◌ (keep_or variety "") ")"))) refl refl
        (one_line-append origin (Topics.◌++◌ " (" (Topics.◌++◌ (keep_or variety "") ")")) w (
          one_line-append " (" (Topics.◌++◌ (keep_or variety "") ")") refl
            (one_line-append (keep_or variety "") ")" v refl))),
    tt,
  )
]

profile_lines : (name : String) → IsOneLine name → All IsComment (profile_line name)
unfolding holds
profile_lines name v = elim (Bool-cases (str_eq name "")) [
  | inl e ↦ rw e tt
  | inr e ↦ rw e (append-IsComment "# Profile: " name refl refl v, tt)
]

module _ (h : Host) (show_time : ℕ → String) where
  header_lines-comments :
      (session : RoastSession) (name : String)
      → IsPrintable h show_time session name
      → All IsComment (header_lines h show_time session name)
  unfolding header_lines holds
  header_lines-comments session name v =
      All-concat IsComment (header_parts h show_time session name) (
        (append-IsComment "# Session: " session.name refl refl v.title, tt),
        (
          line_of-IsComment (λ t. Topics.◌++◌ "# Date: " (show_time t)) session.start_time
              (λ t e. append-IsComment "# Date: " (show_time t) refl refl (v.times t)),
          (
            bean_lines session.bean_variety session.bean_origin v.variety v.origin,
            (
              profile_lines name v.profile,
              (
                weight_lines h v.numbers "# Green Weight: " session.green_weight refl refl,
                (
                  weight_lines h v.numbers "# Roasted Weight: " session.roasted_weight refl refl,
                  tt,
                ),
              ),
            ),
          ),
        ),
      )

  csv_of-read :
      (session : RoastSession) (name : String) (ts : List SessionTelemetry)
      → IsPrintable h show_time session name
      → read_csv (csv_of h show_time session name ts) ≡ columns ∷ map (fields h) ts
  unfolding csv_of read_csv holds commas split_on
  csv_of-read session name ts v =
      let header = header_lines h show_time session name in
      let rows = map (λ t. commas (fields h t)) ts in
      let comments : All IsComment header = header_lines-comments session name v in
      rw
        (
          split_on-lined (header ++ commas columns ∷ rows) (
              All-join IsOneLine header (commas columns ∷ rows) (one_lines header comments)
                (refl, rows-one_lines h v.numbers ts)),
          select-append is_row (header ++ commas columns ∷ rows) ("" ∷ []),
          select-append is_row header (commas columns ∷ rows),
          select-comments header comments,
          append-nil (select is_row rows),
        )
        (ap (λ fs. columns ∷ fs) (rows-read h v.numbers ts))

-- The export of a session whose texts stand on one line, on a host that prints a number without
-- commas, ends of lines and signs of a comment. The export is a file. A reader that leaves out the
-- comments, splits the rows at the commas and takes the first row for the names of the columns finds,
-- for each point of the session's telemetry in the order of time, the point's time, bean and
-- environment temperature, rate of rise, heater, fan and setpoint, each under its name, and an empty
-- text for a value that the point does not have.
pub export_csv-read :
    (h : Host) (show_time to_rfc3339 format_date : ℕ → String) (db : Db) (profiles : Profiles.Db)
    (id : String) (session : RoastSession)
    → find (has_id id) db.roast_sessions ≡ some session
    → IsPrintable h show_time session (profile_name profiles session)
    → option_map
        (λ (file : String × String). by_columns (read_csv file.0))
        (export_csv h show_time to_rfc3339 format_date db profiles id)
      ≡ some (
          map (printed h) (
            order_by h
              (λ (t : SessionTelemetry). t.elapsed_seconds)
              (select (λ (t : SessionTelemetry). str_eq t.session_id id) db.session_telemetry)))
unfolding export_csv get_session get_session_telemetry
export_csv-read h show_time to_rfc3339 format_date db profiles id session e v = rw e (
    ap (λ rows. some (by_columns rows))
      (csv_of-read h show_time session (profile_name profiles session)
        (get_session_telemetry h db id) v)
    ∙ ap some (all_printed h (get_session_telemetry h db id)))
