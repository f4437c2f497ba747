-- ===== src/Tests/Flows.antt =====
-- Workflows.
use smarttest_platform.Base.{
  ◌≡◌, refl, ok, [], none, Result, nat_eq, pair_eq, List, ◌∷◌, arith, some, err,
}
use smarttest_platform.Base.Dict.{Dict, lookup, insert}
use smarttest_platform.Base.Text.{Text, text, text_eq, text_beq}
use smarttest_platform.Protocol.{Json}
use smarttest_platform.Base.Int.{ℤ}
use smarttest_platform.Base.Exec.{workflow_validation_error}
use smarttest_platform.Workflows.Graphs.{
  WorkflowNode, WorkflowEdge, WorkflowDefinition, WorkflowNodeType, WorkflowEdgeOutcome,
  validate_workflow_graph, validate_parts, validate_order, collect_nodes, collect_edges,
  validate_identifier, matches_identifier, check_edge, add_edge, visit, next_visit, release,
}
use smarttest_platform.Workflows.Visits.{Finishes, visit-Finishes}
use smarttest_platform.Workflows.Methods.{
  WorkflowRepository, WorkflowParts, create_workflow, delete_workflow,
}
use smarttest_platform.Workflows.Names.{KeepsNames, WorkflowCalls, WorkflowCalls-KeepsNames}

abbrev no_workflows : WorkflowRepository
no_workflows = record { workflows = []; workflow_names = []; workflow_runs = [] }

no_workflows-KeepsNames : KeepsNames no_workflows
unfolding lookup
no_workflows-KeepsNames = (λ k r h. cc, λ n k h. cc)

workflow_free : lookup 5 no_workflows.workflows ≡ none
unfolding lookup
workflow_free = refl

abbrev as_parts : Json → Json → Json → Result WorkflowParts
as_parts nodes edges variables = ok (record { nodes = nodes; edges = edges; variables = variables })

abbrev empty_parts : WorkflowParts
empty_parts = record { nodes = text "[]"; edges = text "[]"; variables = text "{}" }

WorkflowCalls-KeepsNames_example :
    KeepsNames
      (delete_workflow 5
        (create_workflow as_parts 2 (text "seed") [] empty_parts 5 10 no_workflows).1).1
WorkflowCalls-KeepsNames_example =
    WorkflowCalls-KeepsNames as_parts {s = no_workflows} no_workflows-KeepsNames (
      WorkflowCalls.deletes
        (WorkflowCalls.creates WorkflowCalls.here 2 (text "seed") [] empty_parts 5 10 workflow_free)
        5)

-- Two nodes and an edge between them.
abbrev chain_targets : Dict Text (List Text)
chain_targets = (text "a", text "b" ∷ []) ∷ (text "b", []) ∷ []

abbrev chain_waiting : Dict Text ℤ
chain_waiting = (text "a", ℤ.pos 0) ∷ (text "b", ℤ.pos 1) ∷ []

visit-Finishes_example : Finishes 2 chain_targets chain_waiting (text "a" ∷ []) 0
visit-Finishes_example =
    visit-Finishes 2 chain_targets chain_waiting (text "a" ∷ []) 0 (omega arith)

abbrev node : Text → WorkflowNode
node id = record {
  id = id;
  name = id;
  type = WorkflowNodeType.http;
  x = text "0";
  y = text "0";
  config = text "{}";
}

abbrev edge : Text → Text → Text → WorkflowEdge
edge id source target = record {
  id = id;
  source = source;
  target = target;
  outcome = WorkflowEdgeOutcome.success;
}

abbrev graph : List WorkflowEdge → WorkflowDefinition
graph edges = record {
  nodes = node (text "a") ∷ node (text "b") ∷ node (text "c") ∷ [];
  edges = edges;
  variables = text "{}";
  id = text "debug";
}

chain_accepted :
    validate_workflow_graph 4
      (graph (edge (text "1") (text "a") (text "b") ∷ edge (text "2") (text "b") (text "c") ∷ []))
    ≡ some (ok tt)
unfolding validate_workflow_graph validate_parts validate_order collect_nodes collect_edges
    validate_identifier matches_identifier check_edge add_edge visit next_visit release lookup
    insert text_beq
chain_accepted = refl

cycle_refused :
    validate_workflow_graph 4
      (graph (edge (text "1") (text "b") (text "c") ∷ edge (text "2") (text "c") (text "b") ∷ []))
    ≡ some (err workflow_validation_error)
unfolding validate_workflow_graph validate_parts validate_order collect_nodes collect_edges
    validate_identifier matches_identifier check_edge add_edge visit next_visit release lookup
    insert text_beq
cycle_refused = refl
