-- ===== src/LoadTests/Settings.antt =====
-- The checks of services/api/load_test_repository.py on the settings of a load test. The two
-- validators of services/api/load_test_schemas.py and services/api/data_factory_schemas.py that
-- they call are parameters.
use smarttest_platform.Base.{
  ℕ, ◌*◌, ◌∷◌, [], List, Bool, true, false, not, ◌&&◌, ◌||◌, Result, ok, bind, check, ◌==◌, leb,
  ltb, length, any_of, elem, map,
}
use smarttest_platform.Base.Exec.{value_error}
use smarttest_platform.Base.Int.{ℤ, is_nonpositive, to_nat}
use smarttest_platform.Base.Text.{Text, text_eq, strip}
use smarttest_platform.Protocol.{Json}
use smarttest_platform.LoadTests.Records.{LoadTestTarget, LoadTestTrafficMode, Float}

unfoldable pub normalize_name : Text → Result Text
normalize_name name =
    bind (check ((length (strip name) == 0) || ltb 255 (length (strip name))) value_error)
      (λ u. ok (strip name))

unfoldable pub normalize_category : Text → Result Text
normalize_category category =
    bind (check (ltb 100 (length (strip category))) value_error) (λ u. ok (strip category))

-- `not low <= value <= high` of an integer
abbrev outside : ℕ → ℕ → ℤ → Bool
outside low high (ℤ.pos n) = not (leb low n && leb n high)
outside low high (ℤ.negsuc n) = true

-- `not 0 < timeout_seconds <= 120`
abbrev bad_timeout : Float → Bool
bad_timeout (Float.fraction n d) = is_nonpositive n || not (leb (to_nat n) (120 * d))
bad_timeout Float.not_finite = true

-- The numbers of a load test as they are given.
pub record GivenNumbers : Type 0 where
  pub request_count : ℤ
  pub duration_seconds : ℤ
  pub concurrency : ℤ
  pub interval_ms : ℤ
  pub timeout_seconds : Float

unfoldable pub validate_settings : GivenNumbers → Result (Unit {0})
validate_settings given = bind (check (outside 1 10000 given.request_count) value_error) (λ u.
    bind (check (outside 1 1800 given.duration_seconds) value_error) (λ u.
      bind (check (outside 1 100 given.concurrency) value_error) (λ u.
        bind (check (outside 0 60000 given.interval_ms) value_error)
          (λ u. check (bad_timeout given.timeout_seconds) value_error))))

-- `len({...}) != len(...)`: a name stands twice
unfoldable pub repeated : List Text → Bool
repeated [] = false
repeated (name ∷ names) = elem name names || repeated names

abbrev pub has_extractors : LoadTestTarget → Bool
has_extractors target = not (length target.extractors == 0)

abbrev is_scenario : LoadTestTrafficMode → Bool
is_scenario LoadTestTrafficMode.scenario = true
is_scenario LoadTestTrafficMode.requests = false

module _ (validate_target : Json → Result LoadTestTarget)
    (bounded_targets : List LoadTestTarget → Result (List LoadTestTarget)) where
  unfoldable pub validate_targets : List Json → Result (List LoadTestTarget)
  validate_targets [] = ok []
  validate_targets (item ∷ items) =
      bind (validate_target item) (λ t. bind (validate_targets items) (λ ts. ok (t ∷ ts)))

  unfoldable pub normalize_targets : List Json → LoadTestTrafficMode → Result (List LoadTestTarget)
  normalize_targets targets traffic_mode =
      bind (check (not (leb 1 (length targets) && leb (length targets) 20)) value_error) (λ u.
        bind (validate_targets targets) (λ normalized.
          bind (check (repeated (map (λ (t : LoadTestTarget). t.name) normalized)) value_error)
            (λ u.
              bind
                (check (not (is_scenario traffic_mode) && any_of has_extractors normalized)
                  value_error)
                (λ u. bounded_targets normalized))))
