-- ===== src/Parameters/Defaults.antt =====
-- The defaults of the enum parameters of services/api/parameter_repository.py.
use smarttest_platform.Base.{
  ℕ, List, false, none, Result, ◌≡◌, Option-cases, Bool-cases, Result-cases, inl, inr, ◌==◌, nat_eq,
  pair_eq,
}
use smarttest_platform.Base.Text.{Text, text_eq, text_beq}
use smarttest_platform.Base.Dict.{lookup, delete, lookup-insert_free}
use smarttest_platform.Base.Names.{other_owner}
use smarttest_platform.Protocol.{Uuid, Time}
use smarttest_platform.Parameters.Methods.{
  ParameterRepository, validate_parameter_enums, create_enum_set, loses_default, refers_to,
  update_enum_set, delete_enum_set, replace_script_parameters, get_enum_set, unname_enum,
  invalidates_default, is_referenced,
}
use smarttest_platform.Parameters.Records.{
  ScriptParameterDefinition, option_values, ParameterEnumOption, validate_enum_values,
  validate_parameter_definitions, updated_enum_set,
}
use smarttest_platform.Parameters.Typed.{validated-IsTyped}
use smarttest_platform.Automation.Records.{AutomationScriptRecord}
use smarttest_platform.Parameters.Backed.{
  none_pass, AllBacked-insert, checked-All, moves_IsBacked, HasDefaults, backed_all, keeps_default,
  keeps_IsBacked,
}

create_enum_set-HasDefaults :
    (project_id : Uuid) (name description : Text) (options : List ParameterEnumOption) (uuid : Uuid)
    (now : Time) (s : ParameterRepository)
    → lookup uuid s.enums ≡ none
    → HasDefaults s
    → HasDefaults (create_enum_set project_id name description options uuid now s).1
unfolding create_enum_set
create_enum_set-HasDefaults project_id name description options uuid now s fresh h =
    elim (Result-cases (validate_enum_values name options)) [
      | inr (x, e) ↦ rw e h
      | inl (valid, e) ↦ elim (Option-cases (lookup (project_id, valid.0) s.enum_names)) [
        | inr (owner, f) ↦ rw (e, f) h
        | inl f ↦
            rw (e, f)
              (backed_all (λ d. false) s.enums _
                (λ d t. moves_IsBacked s.enums _ d (λ id r has found member.
                  (r, lookup-insert_free uuid id _ r s.enums fresh found, member)))
                s.parameters (none_pass s.parameters) h)
      ]
    ]

update_enum_set-HasDefaults :
    (id : Uuid) (version : ℕ) (name description : Text) (options : List ParameterEnumOption)
    (now : Time) (s : ParameterRepository)
    → HasDefaults s
    → HasDefaults (update_enum_set id version name description options now s).1
unfolding update_enum_set get_enum_set unname_enum
update_enum_set-HasDefaults id version name description options now s h =
    elim (Result-cases (validate_enum_values name options)) [
      | inr (x, e) ↦ rw e h
      | inl (valid, e) ↦ elim (Option-cases (lookup id s.enums)) [
        | inl f ↦ rw (e, f) h
        | inr (r, f) ↦ elim (Bool-cases (r.state_version == version)) [
          | inr v ↦ rw (e, f, v) h
          | inl v ↦
              elim (Bool-cases (other_owner (lookup (r.project_id, valid.0) s.enum_names) id)) [
                | inl o ↦ rw (e, f, v, o) h
                | inr o ↦ elim (Bool-cases (invalidates_default id valid.1 s.parameters)) [
                  | inl i ↦ rw (e, f, v, o, i) h
                  | inr i ↦
                      let done =
                        backed_all (loses_default id (option_values valid.1)) s.enums _
                          (keeps_default id (updated_enum_set r valid.0 description valid.1 now)
                            s.enums)
                          s.parameters i h in
                      elim (Bool-cases (text_beq r.name valid.0)) [
                        | inl n ↦ rw (e, f, v, o, i, n) done
                        | inr n ↦ elim (Option-cases (lookup (r.project_id, r.name) s.enum_names)) [
                          | inl l ↦ rw (e, f, v, o, i, n, l) h
                          | inr (owner, l) ↦ rw (e, f, v, o, i, n, l) done
                        ]
                      ]
                ]
              ]
        ]
      ]
    ]

delete_enum_set-HasDefaults :
    (id : Uuid) (s : ParameterRepository) → HasDefaults s → HasDefaults (delete_enum_set id s).1
unfolding delete_enum_set get_enum_set unname_enum
delete_enum_set-HasDefaults id s h = elim (Option-cases (lookup id s.enums)) [
  | inl e ↦ rw e h
  | inr (r, e) ↦ elim (Bool-cases (is_referenced id s.parameters)) [
    | inl i ↦ rw (e, i) h
    | inr i ↦
        let done =
          backed_all (refers_to id) s.enums (delete id s.enums) (keeps_IsBacked id s.enums)
            s.parameters i h in
        elim (Option-cases (lookup (r.project_id, r.name) s.enum_names)) [
          | inl l ↦ rw (e, i, l) done
          | inr (owner, l) ↦ rw (e, i, l) done
        ]
  ]
]

replace-HasDefaults :
    (scripts : Uuid → Result AutomationScriptRecord) (id : Uuid)
    (definitions : List ScriptParameterDefinition) (s : ParameterRepository)
    → HasDefaults s
    → HasDefaults (replace_script_parameters scripts id definitions s).1
unfolding replace_script_parameters
replace-HasDefaults scripts id definitions s h =
    elim (Result-cases (validate_parameter_definitions definitions)) [
      | inr (x, e) ↦ rw e h
      | inl (validated, e) ↦ elim (Result-cases (scripts id)) [
        | inr (x, f) ↦ rw (e, f) h
        | inl (script, f) ↦
            elim (Result-cases (validate_parameter_enums script.project_id s.enums validated)) [
              | inr (x, g) ↦ rw (e, f, g) h
              | inl (u, g) ↦
                  rw (e, f, g)
                    (AllBacked-insert s.enums id validated s.parameters
                      (checked-All script.project_id s.enums validated
                        (validated-IsTyped definitions validated e) g)
                      h)
            ]
      ]
    ]

-- The calls that write, with what the reader of scripts answers at that time.
pub data Call : Type 0 where
  creates : Uuid → Text → Text → List ParameterEnumOption → Uuid → Time → Call
  updates : Uuid → ℕ → Text → Text → List ParameterEnumOption → Time → Call
  deletes : Uuid → Call
  replaces : (Uuid → Result AutomationScriptRecord) → Uuid → List ScriptParameterDefinition → Call

abbrev pub after : Call → ParameterRepository → ParameterRepository
after (Call.creates p n d o u now) s = (create_enum_set p n d o u now s).1
after (Call.updates i v n d o now) s = (update_enum_set i v n d o now s).1
after (Call.deletes i) s = (delete_enum_set i s).1
after (Call.replaces scripts i ds) s = (replace_script_parameters scripts i ds s).1

-- `uuid4` draws an identifier that no enum set has.
abbrev pub IsFresh : Call → ParameterRepository → Type 0
IsFresh (Call.creates p n d o u now) s = lookup u s.enums ≡ none
IsFresh _ s = Unit

-- Any sequence of calls.
pub data Calls (s : ParameterRepository) : ParameterRepository → Type 0 where
  here : Calls s s
  next : {t : ParameterRepository} → Calls s t → (c : Call) → IsFresh c t → Calls s (after c t)

after-HasDefaults :
    (c : Call) (s : ParameterRepository) → IsFresh c s → HasDefaults s → HasDefaults (after c s)
after-HasDefaults (Call.creates p n d o u now) s fresh h =
    create_enum_set-HasDefaults p n d o u now s fresh h
after-HasDefaults (Call.updates i v n d o now) s fresh h =
    update_enum_set-HasDefaults i v n d o now s h
after-HasDefaults (Call.deletes i) s fresh h = delete_enum_set-HasDefaults i s h
after-HasDefaults (Call.replaces scripts i ds) s fresh h = replace-HasDefaults scripts i ds s h

-- Whatever calls come, whether they return or raise, when it holds at the start: each script
-- parameter of type enum names an enum set that is there and whose values contain its default, and
-- no parameter of another type names one. Neither an update nor a removal of an enum set, nor a
-- replacement of parameters, breaks this.
pub parameter_calls-HasDefaults :
    {s t : ParameterRepository} → HasDefaults s → Calls s t → HasDefaults t
parameter_calls-HasDefaults h Calls.here = h
parameter_calls-HasDefaults h (Calls.next {t} run c fresh) =
    after-HasDefaults c t fresh (parameter_calls-HasDefaults h run)
