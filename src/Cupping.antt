-- ===== src/Cupping.antt =====
-- The cupping notes of a session: `RoastSessionService` in crates/server/src/services.rs and the
-- handlers over it in crates/server/src/main.rs. Each row comes with its new UUID.
pub mod Reads
pub mod Written
pub mod Upsert
pub mod Integrity
mod Examples
use Prim.Native.Char.{code}
use Prim.Native.String.{[], ◌∷◌}
use rust_roast.Prelude.{
  ℕ, ◌%◌, ◌^◌, ℤ, pos, String, Bool, true, false, ◌&&◌, ◌||◌, not, List, [], ◌∷◌, ◌++◌, map, Option,
  none, some, Result, ok, err, str_eq, nat_eq, ltb, leb, if◌then◌else◌, select, first, any, length,
}
use rust_roast.Host.{Host}
use rust_roast.Models.SessionRows.{RoastSession}
use rust_roast.Models.CuppingRows.{
  CuppingScore, CuppingAttribute, CuppingWithAttributes, CreateCuppingAttributeRequest,
  CreateCuppingRequest,
}
use rust_roast.Tables.{keep_or, delete_rows, order_by, keyed}
use rust_roast.Tables.Owned.{owned}
use rust_roast.Tables.Inserts.{insert_all}
use rust_roast.Sessions.Summary.{bind}
use rust_roast.Sessions as Service
use rust_roast.Sessions.{has_id}
use rust_roast.Sessions.Routes.{Reply, stored}

pub record Db : Type 0 where
  pub sessions : Service.Db
  pub cupping_scores : List CuppingScore
  pub cupping_attributes : List CuppingAttribute

abbrev pub score_key : CuppingScore → String
score_key c = c.id

abbrev pub session_of : CuppingScore → String
session_of c = c.session_id

abbrev pub attribute_key : CuppingAttribute → String
attribute_key a = a.id

abbrev pub cupping_of : CuppingAttribute → String
cupping_of a = a.cupping_id

-- `ON DELETE CASCADE`: an attribute stays when its cupping does.
unfoldable pub with_scores : Db → List CuppingScore → Db
with_scores db scores = record db {
  cupping_scores = scores;
  cupping_attributes =
      select (λ a. any (keyed score_key (cupping_of a)) scores) db.cupping_attributes;
}

unfoldable pub delete_cupping : Db → String → Db
unfolding with_scores
delete_cupping db session_id =
    with_scores db (delete_rows (owned session_of session_id) db.cupping_scores)

-- The deletion of a session, with what the foreign keys delete of its cupping.
unfoldable pub delete_session : Db → String → Bool × Db
unfolding delete_cupping
delete_session db id =
    let (answer, sessions') = Service.delete_session db.sessions id in
    (answer, record (delete_cupping db id) { sessions = sessions' })

-- `ORDER BY created_at DESC`
abbrev pub newer : CuppingScore → CuppingScore → Bool
newer a b = leb b.created_at a.created_at

-- The order of texts in SQLite, by their bytes in UTF-8, which is that of their characters.
unfoldable pub str_le : String → String → Bool
str_le [] t = true
str_le (c ∷ s) [] = false
str_le (c ∷ s) (d ∷ t) = ltb (code c) (code d) || (nat_eq (code c) (code d) && str_le s t)

-- `ORDER BY attribute_name`
abbrev pub by_name : CuppingAttribute → CuppingAttribute → Bool
by_name a b = str_le a.attribute_name b.attribute_name

abbrev pub newest : Db → String → Option CuppingScore
newest db session_id =
    first (order_by newer (select (owned session_of session_id) db.cupping_scores))

unfoldable pub get_cupping : Db → String → Option CuppingWithAttributes
get_cupping db session_id = elim (newest db session_id) [
  | none ↦ none
  | some cupping ↦ some (record {
    cupping = cupping;
    attributes = order_by by_name (select (owned cupping_of cupping.id) db.cupping_attributes);
  })
]

abbrev pub new_attribute : String → ℕ → CreateCuppingAttributeRequest × String → CuppingAttribute
new_attribute cupping_id now (attr, attr_id) = record {
  id = attr_id;
  cupping_id = cupping_id;
  attribute_name = attr.name;
  score = attr.score;
  created_at = now;
}

-- A column of SQLite holds NULL for a bit pattern that is no number.
abbrev pub stored_real : ℕ → Option ℕ
stored_real x = if ltb 0x7F800000 (x % 2 ^ 31) then none else some x

module _ (h : Host) where
  open h use {f32_sum, f32_div, f32_of_int}

  -- The average of the scores.
  unfoldable pub overall : List CreateCuppingAttributeRequest → Option ℕ
  overall [] = none
  overall (attr ∷ attrs) = some (
      f32_div (f32_sum (map (λ (a : CreateCuppingAttributeRequest). a.score) (attr ∷ attrs)))
        (f32_of_int (pos (length (attr ∷ attrs)))))

  abbrev pub new_cupping : String → CreateCuppingRequest → String → ℕ → CuppingScore
  new_cupping session_id req cupping_id now = record {
    id = cupping_id;
    session_id = session_id;
    scoring_framework = keep_or req.scoring_framework "sca";
    overall_score = bind (overall req.attributes) stored_real;
    notes = req.notes;
    created_at = now;
    updated_at = now;
  }

  -- No transaction: an error leaves what the statements before it did. The attributes of the
  -- request come with their UUIDs.
  unfoldable pub create_cupping :
      Db
      → String
      → CreateCuppingRequest
      → List (CreateCuppingAttributeRequest × String)
      → String
      → ℕ
      → Result String CuppingWithAttributes × Db
  unfolding delete_cupping insert_all
  create_cupping db session_id req attributes cupping_id now =
      let cleared = delete_cupping db session_id in
      let cupping = new_cupping session_id req cupping_id now in
      let rows = map (new_attribute cupping_id now) attributes in
      if any (keyed score_key cupping_id) cleared.cupping_scores
      then (err "UNIQUE constraint failed", cleared)
      else if not (any (has_id session_id) cleared.sessions.roast_sessions)
      then (err "FOREIGN KEY constraint failed", cleared)
      else let (failure, table) = insert_all attribute_key rows cleared.cupping_attributes in
        let db' = record cleared {
          cupping_scores = cleared.cupping_scores ++ cupping ∷ [];
          cupping_attributes = table;
        } in
        elim failure [
          | some e ↦ (err e, db')
          | none ↦ (ok (record { cupping = cupping; attributes = rows }), db')
        ]

  unfoldable pub api_create_cupping :
      Db
      → String
      → CreateCuppingRequest
      → List (CreateCuppingAttributeRequest × String)
      → String
      → ℕ
      → Reply CuppingWithAttributes × Db
  api_create_cupping db session_id req attributes cupping_id now =
      let (answer, db') = create_cupping db session_id req attributes cupping_id now in
      (stored 201 "Failed to create cupping" answer, db')

-- No cupping is answered with `null`.
unfoldable pub api_get_cupping : Db → String → Reply (Option CuppingWithAttributes)
api_get_cupping db session_id = ok (200, get_cupping db session_id)

unfoldable pub api_delete_cupping : Db → String → Reply (Unit {0}) × Db
api_delete_cupping db session_id = (ok (204, tt), delete_cupping db session_id)
