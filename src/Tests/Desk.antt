-- ===== src/Tests/Desk.antt =====
-- The playground's page at concrete inputs.
use lcl_fastapi.Prelude.{codes, true, false, none, some, List, [], ◌∷◌, ◌≡◌, refl}
use lcl_fastapi.Tests.Page.{ascii, player}
use lcl_fastapi.Workbench.{Program, Analysis, Evaluation, program_of}
use lcl_fastapi.Workbench.Api.{Fetched, response, exception, api, returned}
use lcl_fastapi.Workbench.Tree.{Node, node, no_nodes, more_nodes}
use lcl_fastapi.Workbench.Graph.{Dependency, draw_graph}
use lcl_fastapi.Workbench.Graph.Drawn.{IsDrawn, draw_graph-IsDrawn}
use lcl_fastapi.Workbench.Events
use lcl_fastapi.Workbench.Events.{
  Event, Sample, click_parse, parse_answer, click_evaluate, evaluate_answer, edit_source,
  load_sample, start_answer, click_tab, opened,
}
use lcl_fastapi.Workbench.Tabs.{TabName}
use lcl_fastapi.Workbench.Turns.Standing.{reported, IsOfThePage}
use lcl_fastapi.Workbench.Turns.Current.{
  Turn, events, parse_turn, evaluate_turn, source_turn, start_turn, opened-current, edit-underway,
}
use lcl_fastapi.Workbench.Views.Steady.{IsInStep}
use lcl_fastapi.Workbench.Views.{opened-IsInStep}

abbrev program : Program
program = record { source = codes "a: 1"; expression = codes "a + 1" }

-- a + 1
abbrev sum : Node
sum = node (codes "Add") 1 0 (codes "a + 1") (
    more_nodes (node (codes "Name") 1 0 (codes "a") no_nodes)
      (more_nodes (node (codes "Number") 1 4 (codes "1") no_nodes) no_nodes))

-- Two names of which one stands in both columns.
abbrev edges : List Dependency
edges =
    record { source = codes "<expression>"; target = codes "a"; kind = codes "eager" }
    ∷ record { source = codes "b"; target = codes "a"; kind = codes "lazy" }
    ∷ record { source = codes "b"; target = codes "b"; kind = codes "eager" }
    ∷ []

draw_graph-IsDrawn_example : IsDrawn edges (draw_graph edges)
draw_graph-IsDrawn_example = draw_graph-IsDrawn edges

abbrev analysis : Analysis
analysis = record {
  ast = (codes "a", node (codes "Number") 1 3 (codes "1") no_nodes) ∷ [];
  expression_ast = sum;
  dependencies = edges;
}

abbrev parsed : Fetched Analysis
parsed = response (record { ok = true; error = none; detail = none; body = analysis })

abbrev evaluated : Fetched Evaluation
evaluated = response (record {
  ok = true;
  error = none;
  detail = none;
  body = record {
    trace = codes "a" ∷ [];
    result_type = codes "int";
    result_repr = codes "2";
    truncated = false;
  };
})

abbrev crossing : List Event
crossing =
    start_answer none (exception (codes "offline"))
    ∷ click_parse
    ∷ edit_source (codes "a: 2")
    ∷ parse_answer parsed
    ∷ click_tab TabName.dependencies
    ∷ click_evaluate
    ∷ load_sample Sample.catalog
    ∷ evaluate_answer evaluated
    ∷ []

opened-IsInStep_example :
    IsInStep ascii (Events.handle_all ascii crossing (opened ascii program none player))
opened-IsInStep_example = opened-IsInStep ascii program none player crossing

abbrev turns : List Turn
turns =
    start_turn none
      (response (record { ok = true; error = none; detail = none; body = codes "0123456789" }))
    ∷ parse_turn parsed
    ∷ evaluate_turn evaluated
    ∷ source_turn (codes "a: 2")
    ∷ parse_turn parsed
    ∷ []

opened-current_example :
    IsOfThePage (Events.handle_all ascii (events turns) (opened ascii program none player))
opened-current_example = opened-current ascii program none player turns

abbrev edited : List Event
edited = click_parse ∷ edit_source (codes "a: 2") ∷ parse_answer parsed ∷ []

answer : api parsed ≡ returned none analysis
unfolding api
answer = refl

edit-underway_example :
    ((Events.handle_all ascii edited (opened ascii program none player)).evaluate_disabled ≡ false)
    × (reported (Events.handle_all ascii edited (opened ascii program none player)).report
        ≡ some (program_of (opened ascii program none player)))
    × ((program_of (Events.handle_all ascii edited (opened ascii program none player))).source
        ≡ codes "a: 2")
unfolding opened
edit-underway_example =
    edit-underway ascii (opened ascii program none player) (codes "a: 2") parsed analysis refl
      answer
