-- ===== src/Plan/Normalize.antt =====
-- The checks of a plan in services/api/test_plan_repository.py. `json_bytes` is the length in bytes
-- of `json.dumps` of an object.
use smarttest_platform.Base.{
  ℕ, ◌+◌, ◌∷◌, [], List, Bool, true, false, not, ◌&&◌, ◌||◌, Option, none, some, Result, ok, bind,
  check, ltb, length, is_none, elem, nat_eq,
}
use smarttest_platform.Base.Exec.{value_error}
use smarttest_platform.Base.Int.{ℤ, is_nonpositive, to_nat}
use smarttest_platform.Base.Text.{text_eq, Text, strip, text}
use smarttest_platform.Plan.Records.{TestPlanDataRow, JsonMap, TestPlanItem}
use smarttest_platform.Protocol.{Uuid}

-- MAX_PLAN_ITEMS
abbrev max_plan_items : ℕ
max_plan_items = 100

-- MAX_PLAN_ROWS
abbrev max_plan_rows : ℕ
max_plan_rows = 1000

-- MAX_JSON_MAP_BYTES
abbrev max_json_map_bytes : ℕ
max_json_map_bytes = 65536

abbrev pub is_empty {ℓ} : {A : Type ℓ} → List A → Bool
is_empty [] = true
is_empty (x ∷ xs) = false

-- `not key or len(key) > 255`
abbrev pub bad_key : Text → Bool
bad_key key = is_empty key || ltb 255 (length key)

-- `item.environment_revision is not None and item.environment_revision < 1`
abbrev bad_revision : Option ℤ → Bool
bad_revision none = false
bad_revision (some n) = is_nonpositive n

unfoldable pub normalize_plan_text : Text → Text → Result (Text × Text)
normalize_plan_text name description = bind (check (bad_key (strip name)) value_error) (λ u.
    bind (check (ltb 100000 (length description)) value_error) (λ v. ok (strip name, description)))

-- `_max_parallel`
unfoldable pub valid_parallel : ℤ → Result ℕ
valid_parallel value =
    bind (check (is_nonpositive value || ltb 100 (to_nat value)) value_error)
      (λ u. ok (to_nat value))

-- `item.data_rows or (TestPlanDataRow("default", {}),)`
abbrev rows_or_default : List TestPlanDataRow → List TestPlanDataRow
rows_or_default [] = record { row_key = text "default"; values = [] } ∷ []
rows_or_default (r ∷ rows) = r ∷ rows

module _ (json_bytes : JsonMap → ℕ) where
  -- `_json_object`: every object of the model holds JSON values
  unfoldable pub json_object : JsonMap → Result JsonMap
  json_object value =
      bind (check (ltb max_json_map_bytes (json_bytes value)) value_error) (λ u. ok value)

  -- the inner loop, on the keys so far
  unfoldable pub normalize_rows : List TestPlanDataRow → List Text → Result (List TestPlanDataRow)
  normalize_rows [] keys = ok []
  normalize_rows (r ∷ rows) keys =
      let key = strip r.row_key in
      let rest = normalize_rows rows (key ∷ keys) in
      bind (check (bad_key key) value_error) (λ u. bind (check (elem key keys) value_error) (λ v.
        bind (json_object r.values)
          (λ object. bind rest (λ done. ok (record { row_key = key; values = object } ∷ done)))))

  -- one turn of the outer loop, the check of the identifiers aside
  unfoldable pub normalize_item : TestPlanItem → Result TestPlanItem
  normalize_item item = bind (check (is_nonpositive item.script_revision) value_error) (λ u.
      bind
        (check
          (not (is_none item.environment_id && is_none item.environment_revision)
            && (is_none item.environment_id || is_none item.environment_revision))
          value_error)
        (λ v. bind (check (bad_revision item.environment_revision) value_error) (λ w.
          bind (normalize_rows (rows_or_default item.data_rows) []) (λ rows.
            bind (json_object item.default_parameters) (λ parameters.
              ok (record item { default_parameters = parameters; data_rows = rows }))))))

  -- the outer loop, on the identifiers so far
  unfoldable pub normalize_each : List TestPlanItem → List Uuid → Result (List TestPlanItem)
  normalize_each [] ids = ok []
  normalize_each (item ∷ items) ids =
      let rest = normalize_each items (item.item_id ∷ ids) in
      bind (check (elem item.item_id ids) value_error)
        (λ u. bind (normalize_item item) (λ normal. bind rest (λ done. ok (normal ∷ done))))

  abbrev pub total_rows : List TestPlanItem → ℕ
  total_rows [] = 0
  total_rows (item ∷ items) = length item.data_rows + total_rows items

  unfoldable pub normalize_plan_items : List TestPlanItem → Result (List TestPlanItem)
  normalize_plan_items items =
      bind (check (is_empty items || ltb max_plan_items (length items)) value_error) (λ u.
        bind (normalize_each items []) (λ normal.
          bind (check (ltb max_plan_rows (total_rows normal)) value_error) (λ v. ok normal)))
