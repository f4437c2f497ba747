-- ===== src/Workflows/Graphs.antt =====
-- services/api/data_factory_domain.py: the graph of a workflow and its validation.
use smarttest_platform.Base.{
  ℕ, zero, suc, ◌+◌, ◌∷◌, [], List, ◌++◌, Bool, true, false, not, ◌&&◌, ◌||◌, Option, none, some,
  is_some, Result, ok, err, bind, check, if◌then◌else◌, ◌==◌, leb, ltb, length, elem, any_of,
}
use smarttest_platform.Base.Exec.{workflow_validation_error, key_error}
use smarttest_platform.Base.Dict.{Dict, lookup, insert, keys_where}
use smarttest_platform.Base.Int.{ℤ}
use smarttest_platform.Base.Text.{Text, text_eq}
use smarttest_platform.Protocol.{Json}
use mathlib.Core.List.{reverse}

pub data WorkflowNodeType : Type 0 where
  http condition parallel : WorkflowNodeType

pub data WorkflowEdgeOutcome : Type 0 where
  always success failure true_branch false_branch : WorkflowEdgeOutcome

-- The coordinates are JSON numbers.
pub record WorkflowNode : Type 0 where
  pub id : Text
  pub name : Text
  pub type : WorkflowNodeType
  pub x : Json
  pub y : Json
  pub config : Json

pub record WorkflowEdge : Type 0 where
  pub id : Text
  pub source : Text
  pub target : Text
  pub outcome : WorkflowEdgeOutcome

pub record WorkflowDefinition : Type 0 where
  pub nodes : List WorkflowNode
  pub edges : List WorkflowEdge
  pub variables : Json
  pub id : Text

-- `outcome in _COMPATIBLE_OUTCOMES[source_type]`
abbrev pub compatible : WorkflowNodeType → WorkflowEdgeOutcome → Bool
compatible _ WorkflowEdgeOutcome.always = true
compatible WorkflowNodeType.http WorkflowEdgeOutcome.success = true
compatible WorkflowNodeType.http WorkflowEdgeOutcome.failure = true
compatible WorkflowNodeType.condition WorkflowEdgeOutcome.true_branch = true
compatible WorkflowNodeType.condition WorkflowEdgeOutcome.false_branch = true
compatible _ _ = false

-- [A-Za-z0-9]
abbrev alphanumeric : ℕ → Bool
alphanumeric c = (leb 65 c && leb c 90) || ((leb 97 c && leb c 122) || (leb 48 c && leb c 57))

-- [A-Za-z0-9._:-]
abbrev identifier_char : ℕ → Bool
identifier_char c = alphanumeric c || ((c == 46) || ((c == 95) || ((c == 58) || (c == 45))))

-- IDENTIFIER_PATTERN.fullmatch
unfoldable pub matches_identifier : Text → Bool
matches_identifier [] = false
matches_identifier (c ∷ t) =
    alphanumeric c && (leb (length t) 254 && not (any_of (λ x. not (identifier_char x)) t))

unfoldable pub validate_identifier : Text → Result (Unit {0})
validate_identifier value = check (not (matches_identifier value)) workflow_validation_error

-- the loop over the nodes
unfoldable pub collect_nodes :
    List WorkflowNode → Dict Text WorkflowNodeType → Result (Dict Text WorkflowNodeType)
collect_nodes [] nodes = ok nodes
collect_nodes (n ∷ ns) nodes = bind (validate_identifier n.id) (λ u.
    bind (check (is_some (lookup n.id nodes)) workflow_validation_error)
      (λ u. collect_nodes ns (insert n.id n.type nodes)))

-- `{node_id: value for node_id in nodes}`
abbrev pub for_each_node {ℓ} : {A : Type ℓ} → A → Dict Text WorkflowNodeType → Dict Text A
for_each_node value [] = []
for_each_node value ((id, t) ∷ nodes) = (id, value) ∷ for_each_node value nodes

-- n + 1 and n - 1
abbrev plus_one : ℤ → ℤ
plus_one (ℤ.pos n) = ℤ.pos (suc n)
plus_one (ℤ.negsuc zero) = ℤ.pos 0
plus_one (ℤ.negsuc (suc n)) = ℤ.negsuc n

abbrev pub minus_one : ℤ → ℤ
minus_one (ℤ.pos zero) = ℤ.negsuc 0
minus_one (ℤ.pos (suc n)) = ℤ.pos n
minus_one (ℤ.negsuc n) = ℤ.negsuc (suc n)

abbrev pub is_nothing_left : ℤ → Bool
is_nothing_left (ℤ.pos zero) = true
is_nothing_left _ = false

-- `d[k]`, which raises KeyError
abbrev pub entry {ℓ} : {A : Type ℓ} → Option A → Result A
entry none = err key_error
entry (some a) = ok a

-- `incoming` and `outgoing`
pub record Degrees : Type 0 where
  pub incoming : Dict Text ℤ
  pub outgoing : Dict Text (List Text)

-- the two lines at the end of the loop over the edges
unfoldable pub add_edge : WorkflowEdge → Degrees → Result Degrees
add_edge e d = bind (entry (lookup e.target d.incoming)) (λ n.
    bind (entry (lookup e.source d.outgoing)) (λ targets. ok (record {
      incoming = insert e.target (plus_one n) d.incoming;
      outgoing = insert e.source (targets ++ (e.target ∷ [])) d.outgoing;
    })))

-- an edge between two known nodes; the other cases raise
unfoldable pub check_edge :
    WorkflowEdge → Option WorkflowNodeType → Option WorkflowNodeType → Result (Unit {0})
check_edge e (some t) (some u) = check (not (compatible t e.outcome)) workflow_validation_error
check_edge e _ _ = err workflow_validation_error

-- the loop over the edges
unfoldable pub collect_edges :
    Dict Text WorkflowNodeType → List WorkflowEdge → List Text → Degrees → Result Degrees
collect_edges nodes [] edge_ids d = ok d
collect_edges nodes (e ∷ es) edge_ids d = bind (validate_identifier e.id) (λ u.
    bind (check (elem e.id edge_ids) workflow_validation_error) (λ u.
      bind (check_edge e (lookup e.source nodes) (lookup e.target nodes))
        (λ u. bind (add_edge e d) (λ d'. collect_edges nodes es (e.id ∷ edge_ids) d'))))

-- the loop over the targets of a node; `ready` is kept from its end
unfoldable pub release : List Text → Dict Text ℤ → List Text → Result (Dict Text ℤ × List Text)
release [] remaining ready = ok (remaining, ready)
release (t ∷ ts) remaining ready = bind (entry (lookup t remaining)) (λ n.
    release ts (insert t (minus_one n) remaining)
      (if is_nothing_left (minus_one n) then t ∷ ready else ready))

-- the rest of the loop after a node
unfoldable pub next_visit :
    (Dict Text ℤ → List Text → Option (Result ℕ))
    → Result (Dict Text ℤ × List Text)
    → Option (Result ℕ)
next_visit again (err e) = some (err e)
next_visit again (ok (remaining, ready)) = again remaining ready

-- `while ready`, at most as often as the fuel says; `none` is a loop that is not done
unfoldable pub visit : ℕ → Dict Text (List Text) → Dict Text ℤ → List Text → ℕ → Option (Result ℕ)
visit zero outgoing remaining ready visited = none
visit (suc fuel) outgoing remaining [] visited = some (ok visited)
visit (suc fuel) outgoing remaining (current ∷ ready) visited =
    next_visit (λ remaining' ready'. visit fuel outgoing remaining' ready' (visited + 1))
      (bind (entry (lookup current outgoing)) (λ targets. release targets remaining ready))

-- what follows the loops over nodes and edges
unfoldable pub validate_order :
    ℕ → Dict Text WorkflowNodeType → Degrees → Option (Result (Unit {0}))
validate_order fuel nodes d =
    let roots = keys_where is_nothing_left d.incoming in
    let visited = visit fuel d.outgoing d.incoming (reverse roots) 0 in
    if length nodes == 0
    then some (ok tt)
    else if length roots == 0
    then some (err workflow_validation_error)
    else elim visited [
      | none ↦ none
      | some r ↦ some (bind r (λ n. check (not (n == length nodes)) workflow_validation_error))
    ]

-- the checks before the search
unfoldable pub validate_parts : WorkflowDefinition → Result (Dict Text WorkflowNodeType × Degrees)
validate_parts definition =
    bind (check (ltb 100 (length definition.nodes)) workflow_validation_error) (λ u.
      bind (check (ltb 500 (length definition.edges)) workflow_validation_error) (λ u.
        bind (collect_nodes definition.nodes []) (λ nodes.
          bind
            (collect_edges nodes definition.edges [] (record {
              incoming = for_each_node (ℤ.pos 0) nodes;
              outgoing = for_each_node [] nodes;
            }))
            (λ d.
              bind
                (check ((length nodes == 0) && not (length definition.edges == 0))
                  workflow_validation_error)
                (λ u. ok (nodes, d))))))

unfoldable pub validate_workflow_graph : ℕ → WorkflowDefinition → Option (Result (Unit {0}))
validate_workflow_graph fuel definition = elim (validate_parts definition) [
  | err e ↦ some (err e)
  | ok (nodes, d) ↦ validate_order fuel nodes d
]
