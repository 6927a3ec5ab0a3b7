-- ===== src/Mapping/Dimension.antt =====
-- src/mapping/dimensions.ts: dimensions from the extracted hints, the row that is stored for each,
-- and the gate on the stored row. `normalize` (src/mapping/resolve.ts) and the test that a trimmed
-- text is empty are parameters: nothing here depends on how they fold case and blanks.
use ap_hub.Prelude.{
  ℕ, Bool, true, false, not, ◌&&◌, ◌||◌, String, List, [], ◌∷◌, Option, none, some, str_eq, any,
  select, find, option_is, if◌then◌else◌,
}
use ap_hub.Mapping.Tax.{text_or, truthy}

pub data DimensionState : Type 0 where
  mapped not_provided not_mapped unsupported_by_provider intentionally_blank : DimensionState

pub record CanonicalDimension : Type 0 where
  pub kind : String
  pub id : Option String
  pub name : Option String
  pub state : Option DimensionState
  pub raw : Option String

pub record DimensionHint : Type 0 where
  pub kind : String
  pub raw : Option String

pub record DimensionCandidateRow : Type 0 where
  pub kind : String
  pub key : String
  pub target_id : String
  pub target_name : String

abbrev pub supported_dimension_kinds : List String
supported_dimension_kinds = "class" ∷ "location" ∷ []

abbrev pub includes : List String → String → Bool
includes texts text = any (λ t. str_eq t text) texts

abbrev pub is_empty : List String → Bool
is_empty [] = true
is_empty (text ∷ texts) = false

abbrev pub plain : String → DimensionState → String → CanonicalDimension
plain kind state raw = record {
  kind = kind;
  id = none;
  name = none;
  state = some state;
  raw = some raw;
}

module _ (normalize : String → String) (is_blank : String → Bool) where
  abbrev pub matches : String → String → DimensionCandidateRow → Bool
  matches kind key c =
      str_eq c.kind kind && (str_eq (normalize c.key) key || str_eq (normalize c.target_name) key)

  -- A hint whose value is there.
  unfoldable pub resolve_one :
      List DimensionCandidateRow → List String → String → String → CanonicalDimension
  resolve_one candidates supported kind raw =
      if is_blank raw
      then plain kind intentionally_blank raw
      else if not (is_empty supported) && not (includes supported kind)
      then plain kind unsupported_by_provider raw
      else elim (find (matches kind (normalize raw)) candidates) [
        | none ↦ plain kind not_mapped raw
        | some hit ↦ record {
          kind = kind;
          id = some hit.target_id;
          name = some hit.target_name;
          state = some mapped;
          raw = some raw;
        }
      ]

  unfoldable pub resolve_dimensions :
      List DimensionHint → List DimensionCandidateRow → List String → List CanonicalDimension
  resolve_dimensions [] candidates supported = []
  resolve_dimensions (hint ∷ hints) candidates supported =
      let rest = resolve_dimensions hints candidates supported in
      elim hint.raw [
        | none ↦ rest
        | some raw ↦ resolve_one candidates supported hint.kind raw ∷ rest
      ]

abbrev pub is_hold_state : DimensionState → Bool
is_hold_state not_mapped = true
is_hold_state unsupported_by_provider = true
is_hold_state _ = false

unfoldable pub has_unhandled_dimension : List CanonicalDimension → Bool
has_unhandled_dimension = any (λ d. option_is is_hold_state d.state)

abbrev pub is_mapped : DimensionState → Bool
is_mapped mapped = true
is_mapped _ = false

unfoldable pub mapped_supported_dimensions :
    List CanonicalDimension → List String → List CanonicalDimension
mapped_supported_dimensions dims supported =
    select (λ d. option_is is_mapped d.state && truthy d.id && includes supported d.kind) dims

-- The columns that the gate reads; what is stored elsewhere may have any text in them.
pub record DimensionMappingRecord : Type 0 where
  pub resolution_state : String
  pub review_status : String

pub data DimensionMappingGate : Type 0 where
  dimension_pass dimension_ok : DimensionMappingGate
  dimension_mapping_not_found dimension_mapping_not_mapped : DimensionMappingGate
  dimension_mapping_not_reviewed : DimensionMappingGate

abbrev pub is_intentionally_blank : DimensionState → Bool
is_intentionally_blank intentionally_blank = true
is_intentionally_blank _ = false

unfoldable pub evaluate_dimension_mapping_record :
    CanonicalDimension → Option DimensionMappingRecord → DimensionMappingGate
evaluate_dimension_mapping_record dim row =
    if option_is is_intentionally_blank dim.state then dimension_pass else elim row [
      | none ↦ dimension_mapping_not_found
      | some r ↦
          if not (str_eq r.resolution_state "mapped")
          then dimension_mapping_not_mapped
          else if not (str_eq r.review_status "accepted")
              && not (str_eq r.review_status "corrected")
          then dimension_mapping_not_reviewed
          else dimension_ok
    ]

pub record Context : Type 0 where
  pub tenant_id : ℕ
  pub connection_id : ℕ
  pub provider : String
  pub proposal_id : ℕ

-- The stored row; `sourceEvidence` is `{ raw }`. The confidence is 0 or 1.
pub record DimensionMappingInsert : Type 0 where
  pub tenant_id : ℕ
  pub connection_id : ℕ
  pub provider : String
  pub proposal_id : ℕ
  pub dimension_type : String
  pub raw_value : String
  pub normalized_value : Option String
  pub source_evidence : String
  pub extraction_confidence : ℕ
  pub proposed_provider_id : Option String
  pub proposed_match_label : Option String
  pub provider_id : Option String
  pub mapping_method : Option String
  pub review_status : String
  pub resolution_state : String

module _ (normalize : String → String) where
  -- A row with no provider id, which each of the states completes.
  abbrev pub unmatched :
      CanonicalDimension → Context → Option String → String → String → DimensionMappingInsert
  unmatched dim ctx normalized review resolution = record {
    tenant_id = ctx.tenant_id;
    connection_id = ctx.connection_id;
    provider = ctx.provider;
    proposal_id = ctx.proposal_id;
    dimension_type = dim.kind;
    raw_value = text_or "" dim.raw;
    normalized_value = normalized;
    source_evidence = text_or "" dim.raw;
    extraction_confidence = 0;
    proposed_provider_id = none;
    proposed_match_label = none;
    provider_id = none;
    mapping_method = none;
    review_status = review;
    resolution_state = resolution;
  }

  unfoldable pub insert_for : DimensionState → CanonicalDimension → Context → DimensionMappingInsert
  insert_for mapped dim ctx =
      record (unmatched dim ctx (some (normalize (text_or "" dim.raw))) "accepted" "mapped") {
        extraction_confidence = 1;
        proposed_provider_id = dim.id;
        proposed_match_label = dim.name;
        provider_id = dim.id;
        mapping_method = some "exact";
      }
  insert_for intentionally_blank dim ctx = unmatched dim ctx none "accepted" "intentionally_blank"
  insert_for unsupported_by_provider dim ctx =
      unmatched dim ctx (some (normalize (text_or "" dim.raw))) "held" "unsupported_by_provider"
  insert_for not_mapped dim ctx =
      unmatched dim ctx (some (normalize (text_or "" dim.raw))) "pending" "not_mapped"
  insert_for not_provided dim ctx =
      unmatched dim ctx (some (normalize (text_or "" dim.raw))) "pending" "not_mapped"

  unfoldable pub to_dimension_mapping_insert :
      CanonicalDimension → Context → Option DimensionMappingInsert
  to_dimension_mapping_insert dim ctx = elim dim.state [
    | none ↦ none
    | some state ↦ some (insert_for state dim ctx)
  ]
