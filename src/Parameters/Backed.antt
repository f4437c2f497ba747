-- ===== src/Parameters/Backed.antt =====
-- Enum parameters and the sets that hold their defaults, of services/api/parameter_repository.py.
use smarttest_platform.Base.{
  ◌∷◌, [], List, Bool, true, false, Option, none, some, ok, ◌≡◌, refl, sym, ap, ◌∙◌, Bool-cases,
  Result-cases, inl, inr, ◌==◌, nat_eq, pair_eq, All, elem, any_of, opt_beq, clash, ==_iff, ◌⊎◌,
}
use smarttest_platform.Base.Text.{text_eq}
use smarttest_platform.Base.Dict.{Dict, lookup, insert, delete, lookup-insert_self}
use smarttest_platform.Base.Names.{lookup-insert_other, lookup-delete_other}
use smarttest_platform.Base.Tests.{opt_beq_iff}
use smarttest_platform.Protocol.{Uuid}
use smarttest_platform.Parameters.Methods.{
  ParameterRepository, validate_parameter_enums, any_parameter, check_enum, check_found,
  loses_default, refers_to,
}
use smarttest_platform.Parameters.Records.{
  ScriptParameterDefinition, ParameterEnumSetRecord, option_values, is_enum, ParameterInputType,
}
use smarttest_platform.Parameters.Typed.{IsTyped}

-- A parameter of another type has no enum set; an enum parameter has one, which is there and among
-- whose values its default is.
abbrev pub IsBacked : Dict Uuid ParameterEnumSetRecord → ScriptParameterDefinition → Type 0
IsBacked enums d =
    ((d.enum_set_id ≡ none) × (is_enum d.input_type ≡ false))
    ⊎ ((id : Uuid) × (r : ParameterEnumSetRecord) × (d.enum_set_id ≡ some id)
        × (d.input_type ≡ ParameterInputType.enum)
        × (lookup id enums ≡ some r)
        × (elem d.default_value (option_values r.options) ≡ true))

abbrev pub AllBacked :
    Dict Uuid ParameterEnumSetRecord → Dict Uuid (List ScriptParameterDefinition) → Type 0
AllBacked enums [] = Unit
AllBacked enums ((script, definitions) ∷ rest) =
    All (IsBacked enums) definitions × AllBacked enums rest

abbrev pub HasDefaults : ParameterRepository → Type 0
HasDefaults s = AllBacked s.enums s.parameters

-- The enum sets change so that the set of a parameter keeps its default.
pub moves_IsBacked :
    (enums enums' : Dict Uuid ParameterEnumSetRecord) (d : ScriptParameterDefinition)
    → ((id : Uuid) (r : ParameterEnumSetRecord)
        → d.enum_set_id ≡ some id
        → lookup id enums ≡ some r
        → elem d.default_value (option_values r.options) ≡ true
        → (r' : ParameterEnumSetRecord) × (lookup id enums' ≡ some r')
          × (elem d.default_value (option_values r'.options) ≡ true))
    → IsBacked enums d
    → IsBacked enums' d
moves_IsBacked enums enums' d move (inl plain) = inl plain
moves_IsBacked enums enums' d move (inr (id, r, has, type, found, member)) =
    let (r', found', member') = move id r has found member in
    inr (id, r', has, type, found', member')

-- The enum sets change so that parameters which fail the test stay backed.
module _ (test : ScriptParameterDefinition → Bool) (enums enums' : Dict Uuid ParameterEnumSetRecord)
    (keep : (d : ScriptParameterDefinition)
      → test d ≡ false
      → IsBacked enums d
      → IsBacked enums' d) where
  IsBacked-list :
      (ds : List ScriptParameterDefinition)
      → any_of test ds ≡ false
      → All (IsBacked enums) ds
      → All (IsBacked enums') ds
  IsBacked-list [] none_of h = tt
  IsBacked-list (d ∷ ds) none_of h = elim (Bool-cases (test d)) [
    | inl e ↦ absurd (clash {b = any_of test (d ∷ ds)} (rw e refl) none_of)
    | inr e ↦ (keep d e h.0, IsBacked-list ds (rest_of e none_of) h.1)
  ]
    where
      rest_of : test d ≡ false → any_of test (d ∷ ds) ≡ false → any_of test ds ≡ false
      rest_of e = rw e (λ h. h)

  pub backed_all :
      (ps : Dict Uuid (List ScriptParameterDefinition))
      → any_parameter test ps ≡ false
      → AllBacked enums ps
      → AllBacked enums' ps
  unfolding any_parameter
  backed_all [] none_of h = tt
  backed_all ((script, ds) ∷ ps) none_of h = elim (Bool-cases (any_of test ds)) [
    | inl e ↦ absurd (clash {b = any_parameter test ((script, ds) ∷ ps)} (rw e refl) none_of)
    | inr e ↦ (IsBacked-list ds e h.0, backed_all ps (rest_of e none_of) h.1)
  ]
    where
      rest_of :
          any_of test ds ≡ false
          → any_parameter test ((script, ds) ∷ ps) ≡ false
          → any_parameter test ps ≡ false
      rest_of e = rw e (λ h. h)

pub none_pass :
    (ps : Dict Uuid (List ScriptParameterDefinition)) → any_parameter (λ d. false) ps ≡ false
unfolding any_parameter
none_pass [] = refl
none_pass ((script, ds) ∷ ps) = rw (none_in ds) (none_pass ps)
  where
    none_in : (ds : List ScriptParameterDefinition) → any_of (λ d. false) ds ≡ false
    none_in [] = refl
    none_in (d ∷ ds) = none_in ds

pub AllBacked-insert :
    (enums : Dict Uuid ParameterEnumSetRecord) (k : Uuid) (ds : List ScriptParameterDefinition)
    (ps : Dict Uuid (List ScriptParameterDefinition))
    → All (IsBacked enums) ds
    → AllBacked enums ps
    → AllBacked enums (insert k ds ps)
unfolding insert
AllBacked-insert enums k ds [] new h = (new, tt)
AllBacked-insert enums k ds ((j, old) ∷ ps) new h = elim (Bool-cases (j == k)) [
  | inl e ↦ rw e (new, h.1)
  | inr e ↦ rw e (h.0, AllBacked-insert enums k ds ps new h.1)
]

-- What the check of the enums accepts is backed.
checked :
    (project_id : Uuid) (d : ScriptParameterDefinition) (o : Option ParameterEnumSetRecord)
    → check_found project_id d o ≡ ok tt
    → (r : ParameterEnumSetRecord) × (o ≡ some r)
      × (elem d.default_value (option_values r.options) ≡ true)
checked project_id d none = λ h. cc
checked project_id d (some r) = elim (Bool-cases (r.project_id == project_id)) [
  | inr p ↦ rw p (λ h. cc)
  | inl p ↦ elim (Bool-cases (elem d.default_value (option_values r.options))) [
    | inr m ↦ rw (p, m) (λ h. cc)
    | inl m ↦ λ h. (r, refl, m)
  ]
]

pub checked-All :
    (project_id : Uuid) (enums : Dict Uuid ParameterEnumSetRecord)
    (ds : List ScriptParameterDefinition)
    → All IsTyped ds
    → validate_parameter_enums project_id enums ds ≡ ok tt
    → All (IsBacked enums) ds
unfolding validate_parameter_enums
checked-All project_id enums [] typed = λ h. tt
checked-All project_id enums (d ∷ ds) typed =
    elim (Result-cases (check_enum project_id enums d d.enum_set_id)) [
      | inr (x, e) ↦ rw e (λ h. cc)
      | inl (u, e) ↦ rw e (λ h. (backed e typed.0, checked-All project_id enums ds typed.1 h))
    ]
  where
    backed : check_enum project_id enums d d.enum_set_id ≡ ok tt → IsTyped d → IsBacked enums d
    backed e (inl plain) = inl plain
    backed e (inr (id, has, type)) =
        let (r, found, member) =
          checked project_id d (lookup id enums)
            (ap (check_enum project_id enums d) (sym has) ∙ e) in
        inr (id, r, has, type, found, member)

-- A parameter whose default stays among the values stays backed.
pub keeps_default :
    (id : Uuid) (r : ParameterEnumSetRecord) (enums : Dict Uuid ParameterEnumSetRecord)
    (d : ScriptParameterDefinition)
    → loses_default id (option_values r.options) d ≡ false
    → IsBacked enums d
    → IsBacked (insert id r enums) d
keeps_default id r enums d kept =
    moves_IsBacked enums (insert id r enums) d (λ j q has found member.
      elim (Bool-cases (id == j)) [
        | inr other ↦ (q, lookup-insert_other id j r enums other ∙ found, member)
        | inl same ↦ (
          r,
          ap (λ x. lookup x (insert id r enums)) (sym ((==_iff id j).0 same))
              ∙ lookup-insert_self id r enums,
          still
              ((opt_beq_iff d.enum_set_id (some id)).1 (has ∙ ap some (sym ((==_iff id j).0 same))))
              kept,
        )
      ])
  where
    still :
        opt_beq d.enum_set_id (some id) ≡ true
        → loses_default id (option_values r.options) d ≡ false
        → elem d.default_value (option_values r.options) ≡ true
    still t = elim (Bool-cases (elem d.default_value (option_values r.options))) [
      | inl m ↦ λ h. m
      | inr m ↦ rw (t, m) (λ h. cc)
    ]

-- A parameter that does not refer to the removed set stays backed.
pub keeps_IsBacked :
    (id : Uuid) (enums : Dict Uuid ParameterEnumSetRecord) (d : ScriptParameterDefinition)
    → refers_to id d ≡ false
    → IsBacked enums d
    → IsBacked (delete id enums) d
keeps_IsBacked id enums d away = moves_IsBacked enums (delete id enums) d (λ j q has found member.
    elim (Bool-cases (id == j)) [
      | inr other ↦ (q, lookup-delete_other id j enums other ∙ found, member)
      | inl same ↦
          clash
            ((opt_beq_iff d.enum_set_id (some id)).1 (has ∙ ap some (sym ((==_iff id j).0 same))))
            away
    ])
