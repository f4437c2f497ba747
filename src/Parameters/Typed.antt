-- ===== src/Parameters/Typed.antt =====
-- The type and the enum set of a parameter, of services/api/parameter_domain.py.
use smarttest_platform.Base.Text.{text_eq}
use smarttest_platform.Base.{
  ◌∷◌, [], List, refl, ◌≡◌, none, true, ◌&&◌, ok, false, is_none, ℕ, All, ◌⊎◌, not, Result-cases,
  is_some, Bool-cases, inr, some, arith, inl, Option-cases, ◌||◌, elem,
}
use smarttest_platform.Parameters.Records.{
  ScriptParameterDefinition, ParameterInputType, validate_definitions,
  validate_parameter_definitions, is_enum, parameter_name, bad_label, bad_position,
}
use smarttest_platform.Base.Text.{Text, strip}
use mathlib.Core.Path.{subst}
use smarttest_platform.Protocol.{Uuid}
use smarttest_platform.Base.Sort.{sorted-All}
use smarttest_platform.Base.Int.{to_nat}

-- A parameter has an enum set exactly if its type is enum.
abbrev pub IsTyped : ScriptParameterDefinition → Type 0
IsTyped d =
    ((d.enum_set_id ≡ none) × (is_enum d.input_type ≡ false))
    ⊎ ((id : Uuid) × (d.enum_set_id ≡ some id) × (d.input_type ≡ ParameterInputType.enum))

enum_type : (t : ParameterInputType) → is_enum t ≡ true → t ≡ ParameterInputType.enum
enum_type ParameterInputType.enum h = refl
enum_type _ h = cc

typed :
    (d : ScriptParameterDefinition)
    → (is_enum d.input_type && is_none d.enum_set_id) ≡ false
    → (not (is_enum d.input_type) && is_some d.enum_set_id) ≡ false
    → IsTyped d
typed d has lacks = elim (Option-cases d.enum_set_id) [
  | inl e ↦ inl (e, plain e has)
  | inr (id, e) ↦ inr (id, e, enum_type d.input_type (set id e lacks))
]
  where
    plain :
        d.enum_set_id ≡ none
        → (is_enum d.input_type && is_none d.enum_set_id) ≡ false
        → is_enum d.input_type ≡ false
    plain e = rw e (λ h. ground arith)

    set :
        (id : Uuid)
        → d.enum_set_id ≡ some id
        → (not (is_enum d.input_type) && is_some d.enum_set_id) ≡ false
        → is_enum d.input_type ≡ true
    set id e = rw e (λ h. ground arith)

the_list : (xs ys : List ScriptParameterDefinition) → ok xs ≡ ok ys → xs ≡ ys
the_list xs ys h = cc

definitions-IsTyped :
    (ds : List ScriptParameterDefinition) (names : List Text) (positions : List ℕ)
    (validated : List ScriptParameterDefinition)
    → validate_definitions ds names positions ≡ ok validated
    → All IsTyped validated
unfolding validate_definitions
definitions-IsTyped [] names positions validated =
    λ h. subst (All IsTyped) (the_list [] validated h) tt
definitions-IsTyped (d ∷ ds) names positions validated =
    elim (Bool-cases (not (parameter_name d.name) || elem d.name names)) [
      | inl e ↦ rw e (λ h. cc)
      | inr e ↦ elim (Bool-cases (bad_label (strip d.label))) [
        | inl f ↦ rw (e, f) (λ h. cc)
        | inr f ↦ elim (Bool-cases (bad_position d.position positions)) [
          | inl g ↦ rw (e, f, g) (λ h. cc)
          | inr g ↦ elim (Bool-cases (is_enum d.input_type && is_none d.enum_set_id)) [
            | inl p ↦ rw (e, f, g, p) (λ h. cc)
            | inr p ↦ elim (Bool-cases (not (is_enum d.input_type) && is_some d.enum_set_id)) [
              | inl q ↦ rw (e, f, g, p, q) (λ h. cc)
              | inr q ↦
                  elim (Result-cases
                    (validate_definitions ds (d.name ∷ names) (to_nat d.position ∷ positions))) [
                      | inr (x, r) ↦ rw (e, f, g, p, q, r) (λ h. cc)
                      | inl (done, r) ↦
                          rw (e, f, g, p, q, r)
                            (λ h. subst (All IsTyped) (the_list _ validated h) (
                              typed d p q,
                              definitions-IsTyped ds (d.name ∷ names)
                                  (to_nat d.position ∷ positions) done r,
                            ))
                    ]
            ]
          ]
        ]
      ]
    ]

-- What the checks of the definitions return is typed.
pub validated-IsTyped :
    (ds validated : List ScriptParameterDefinition)
    → validate_parameter_definitions ds ≡ ok validated
    → All IsTyped validated
unfolding validate_parameter_definitions
validated-IsTyped ds validated = elim (Result-cases (validate_definitions ds [] [])) [
  | inr (x, e) ↦ rw e (λ h. cc)
  | inl (xs, e) ↦ rw e (λ h.
      subst (All IsTyped) (the_list _ validated h)
        (sorted-All _ IsTyped xs (definitions-IsTyped ds [] [] xs e)))
]
