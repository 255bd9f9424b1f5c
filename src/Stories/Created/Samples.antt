-- ===== src/Stories/Created/Samples.antt =====
-- A created story under the traceability rule, and a set of one.
use solutions_studio.Base.{◌≡◌, ◌⊎◌, none, List, [], ◌∷◌}
use solutions_studio.Base.Text.{Text, codes}
use solutions_studio.Base.Numbers.{compare_code_units}
use solutions_studio.Base.Result.{ok}
use solutions_studio.Stories.Types.{Story}
use solutions_studio.Stories.Create.Samples.{params, created, story_created}
use solutions_studio.Stories.Order.{compute_topological_execution_order}
use solutions_studio.Stories.Order.Laws.{IsExecutionOrder}
use solutions_studio.Stories.Order.Samples.{valid}
use solutions_studio.Stories.Readiness.{StoryReadinessEvaluationContext}
use solutions_studio.Stories.Readiness.Rules.{check_traceability}
use solutions_studio.Stories.Created.{create_story-check_traceability, created_stories_scheduled}

abbrev context : StoryReadinessEvaluationContext
context = record {
  story = created (codes "s") (codes "d" ∷ []);
  baseline = none;
  requirement_revisions = [];
  policy_constraint_revisions = none;
  candidate_findings = none;
  engineering_decisions = none;
  sql_projection_validation = none;
  open_api_projection_validation = none;
  baseline_story_ids = none;
  baseline_stories = none;
}

abbrev stories : List Story
stories = created (codes "s") (codes "d" ∷ []) ∷ []

create_story-check_traceability_example : check_traceability context ≡ none
create_story-check_traceability_example =
    create_story-check_traceability (params (codes " s") (codes "R1") (codes "d" ∷ []))
      (codes "now") context story_created

created_stories_scheduled_example :
    (order : List Text) × (compute_topological_execution_order compare_code_units stories valid
      ≡ ok order)
    × ((order ≡ []) ⊎ IsExecutionOrder stories order)
created_stories_scheduled_example =
    created_stories_scheduled compare_code_units stories valid
      ((params (codes " s") (codes "R1") (codes "d" ∷ []), codes "now", story_created), tt)
