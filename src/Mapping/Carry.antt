-- ===== src/Mapping/Carry.antt =====
-- The dimensions followed from a hint to the gate on the stored row.
use ap_hub.Prelude.{
  ◌≡◌, refl, Bool, true, false, not, ◌&&◌, String, List, [], ◌∷◌, map, Option, none, some, all,
  arith, find, option_is, Option-cases, Bool-cases, inl, inr,
}
use ap_hub.Mapping.Dimension.{
  CanonicalDimension, DimensionHint, DimensionCandidateRow, DimensionMappingRecord,
  DimensionMappingInsert, DimensionMappingGate, dimension_pass, dimension_ok, Context, matches,
  resolve_one, resolve_dimensions, has_unhandled_dimension, evaluate_dimension_mapping_record,
  is_hold_state, insert_for, to_dimension_mapping_insert, includes, is_empty,
}

-- The kinds and values of the hints that have a value.
unfoldable pub provided : List DimensionHint → List (String × Option String)
provided [] = []
provided (hint ∷ hints) = elim hint.raw [
  | none ↦ provided hints
  | some raw ↦ (hint.kind, some raw) ∷ provided hints
]

abbrev pub passes : DimensionMappingGate → Bool
passes dimension_pass = true
passes dimension_ok = true
passes _ = false

abbrev map_option :
    (DimensionMappingInsert → DimensionMappingRecord)
    → Option DimensionMappingInsert
    → Option DimensionMappingRecord
map_option f none = none
map_option f (some row) = some (f row)

abbrev pub as_record : DimensionMappingInsert → DimensionMappingRecord
as_record row = record {
  resolution_state = row.resolution_state;
  review_status = row.review_status;
}

module _ (normalize : String → String) (is_blank : String → Bool) where
  resolve_one_lem :
      (candidates : List DimensionCandidateRow) (supported : List String) (kind raw : String)
      → let d = resolve_one normalize is_blank candidates supported kind raw in
        (d.kind ≡ kind) × (d.raw ≡ some raw)
  unfolding resolve_one
  resolve_one_lem candidates supported kind raw = ground arith

  -- Every hint with a value becomes one dimension, in the order of the hints, with its kind and its
  -- value; a hint without a value becomes none.
  pub resolve_dimensions-provided :
      (hints : List DimensionHint) (candidates : List DimensionCandidateRow)
      (supported : List String)
      → map
          (λ d. (d.kind, d.raw))
          (resolve_dimensions normalize is_blank hints candidates supported)
        ≡ provided hints
  unfolding resolve_dimensions provided
  resolve_dimensions-provided [] candidates supported = refl
  resolve_dimensions-provided (hint ∷ hints) candidates supported =
      let rest = resolve_dimensions-provided hints candidates supported in
      elim (Option-cases hint.raw) [
        | inl e ↦ rw e rest
        | inr (raw, e) ↦
            let own = resolve_one_lem candidates supported hint.kind raw in
            rw (e, own.0, own.1, rest) refl
      ]

  abbrev pub stored_passes : Context → CanonicalDimension → Bool
  stored_passes ctx d = passes (
      evaluate_dimension_mapping_record d
        (map_option as_record (to_dimension_mapping_insert normalize d ctx)))

  gate-resolve_one :
      (candidates : List DimensionCandidateRow) (supported : List String) (kind raw : String)
      (ctx : Context)
      → let d = resolve_one normalize is_blank candidates supported kind raw in
        stored_passes ctx d ≡ not (option_is is_hold_state d.state)
  unfolding resolve_one evaluate_dimension_mapping_record to_dimension_mapping_insert insert_for
  gate-resolve_one candidates supported kind raw ctx = elim (Bool-cases (is_blank raw)) [
    | inl blank ↦ rw blank refl
    | inr text ↦ elim (Bool-cases (not (is_empty supported) && not (includes supported kind))) [
      | inl alien ↦ rw (text, alien) refl
      | inr known ↦
          elim (Option-cases (find (matches normalize is_blank kind (normalize raw)) candidates)) [
            | inl none_eq ↦ rw (text, known, none_eq) refl
            | inr (hit, e) ↦ rw (text, known, e) refl
          ]
    ]
  ]

  -- What the pipeline stores for the dimensions that it resolved, and no reviewer has touched, passes
  -- the gate before posting for all of them if and only if none of them is flagged as unhandled.
  pub gate-resolve_dimensions :
      (hints : List DimensionHint) (candidates : List DimensionCandidateRow)
      (supported : List String) (ctx : Context)
      → let dims = resolve_dimensions normalize is_blank hints candidates supported in
        all (stored_passes ctx) dims ≡ not (has_unhandled_dimension dims)
  unfolding resolve_dimensions has_unhandled_dimension
  gate-resolve_dimensions [] candidates supported ctx = refl
  gate-resolve_dimensions (hint ∷ hints) candidates supported ctx =
      let rest = gate-resolve_dimensions hints candidates supported ctx in
      elim (Option-cases hint.raw) [
        | inl e ↦ rw e rest
        | inr (raw, e) ↦
            let own = gate-resolve_one candidates supported hint.kind raw ctx in
            rw e (ground (arith, own, rest))
      ]
