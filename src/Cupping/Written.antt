-- ===== src/Cupping/Written.antt =====
-- What the creation of a cupping writes, column by column.
use rust_roast.Prelude.{
  ℕ, ◌%◌, ◌^◌, pos, length, ltb, if◌then◌else◌, List-cases, String, [], ◌∷◌, map, none, some, ◌≡◌,
  refl, Option-cases, inl, inr,
}
use rust_roast.Host.{Host}
use rust_roast.Models.CuppingRows.{
  CuppingScore, CuppingAttribute, CreateCuppingAttributeRequest, CreateCuppingRequest,
}
use rust_roast.Cupping.{overall, new_cupping}

-- The rows of a new cupping and of its attributes, column by column. The average of no scores, and
-- one that is no number, is NULL.
abbrev pub cupping_row : Host → String → CreateCuppingRequest → String → ℕ → CuppingScore
cupping_row h session_id req cupping_id now = record {
  id = cupping_id;
  session_id = session_id;
  scoring_framework = elim req.scoring_framework [ none ↦ "sca" | some framework ↦ framework ];
  overall_score = elim req.attributes [
    | [] ↦ none
    | a ∷ as' ↦
        let scores = map (λ (b : CreateCuppingAttributeRequest). b.score) (a ∷ as') in
        let average = h.f32_div (h.f32_sum scores) (h.f32_of_int (pos (length (a ∷ as')))) in
        if ltb 0x7F800000 (average % 2 ^ 31) then none else some average
  ];
  notes = req.notes;
  created_at = now;
  updated_at = now;
}

abbrev pub attribute_row : String → ℕ → CreateCuppingAttributeRequest × String → CuppingAttribute
attribute_row cupping_id now (attr, attr_id) = record {
  id = attr_id;
  cupping_id = cupping_id;
  attribute_name = attr.name;
  score = attr.score;
  created_at = now;
}

pub new_cupping-row :
    (h : Host) (session_id : String) (req : CreateCuppingRequest) (cupping_id : String) (now : ℕ)
    → new_cupping h session_id req cupping_id now ≡ cupping_row h session_id req cupping_id now
unfolding overall
new_cupping-row h session_id req cupping_id now = elim (Option-cases req.scoring_framework) [
  | inl e ↦ elim (List-cases req.attributes) [
    | inl f ↦ rw (e, f) refl
    | inr (a, as', f) ↦ rw (e, f) refl
  ]
  | inr (framework, e) ↦ elim (List-cases req.attributes) [
    | inl f ↦ rw (e, f) refl
    | inr (a, as', f) ↦ rw (e, f) refl
  ]
]
