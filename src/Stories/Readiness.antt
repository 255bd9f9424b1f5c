-- ===== src/Stories/Readiness.antt =====
-- `evaluateStoryReadiness` of packages/domain/src/requirements/StoryReadiness.ts: the data and the
-- rules on requirements and policy constraints. A failure is kept without its message, which is a
-- rendering of what the failure holds. A rule returns its failure, and none when it passes.
pub mod Rules
pub mod Evaluation
pub mod Laws
pub mod Ready
pub mod Ends
pub mod Named
mod Samples
use solutions_studio.Base.{
  ℕ, Bool, true, false, not, ◌&&◌, ◌||◌, Option, none, some, List, [], ◌∷◌, map, keep, value_or,
  is_empty, if◌then◌else◌,
}
use solutions_studio.Base.Text.{Text, has}
use solutions_studio.Base.Maps.{Map, get, set}
use solutions_studio.Base.Counts.{sort}
use solutions_studio.Base.Sets.{add_all, set_of}
use solutions_studio.Base.Numbers.{compare_code_units}
use solutions_studio.Requirements.Types.{
  FindingType, RequirementRevision, PolicyConstraintRevision, RequirementsBaseline,
  CandidateFinding, EngineeringDecision,
}
use solutions_studio.Requirements.Baseline.{is_accepted, is_clear, is_policy_accepted}
use solutions_studio.Stories.Types.{Story, GherkinScenario}

pub data StoryReadinessRuleId : Type 0 where
  baseline_exists requirement_revisions_belong_to_baseline : StoryReadinessRuleId
  requirements_accepted_and_clear policy_constraints_valid : StoryReadinessRuleId
  no_blocking_open_findings story_traceability_declared : StoryReadinessRuleId
  engineering_decisions_accepted_or_deferred sql_projection_valid : StoryReadinessRuleId
  openapi_projection_valid story_dependencies_exist : StoryReadinessRuleId

pub record StoryReadinessFailure : Type 0 where
  pub rule_id : StoryReadinessRuleId
  pub affected_ids : List Text

pub record StoryReadinessPolicy : Type 0 where
  pub require_sql_projection : Option Bool
  pub require_open_api_projection : Option Bool
  pub allow_deferred_engineering_decisions : Option Bool
  pub blocking_finding_types : Option (List FindingType)

pub record ProjectionValidation : Type 0 where
  pub exists : Bool
  pub is_valid : Bool
  pub error_message : Option Text
  pub id : Option Text

pub record StoryReadinessEvaluationContext : Type 0 where
  pub story : Story
  pub baseline : Option RequirementsBaseline
  pub requirement_revisions : List RequirementRevision
  pub policy_constraint_revisions : Option (List PolicyConstraintRevision)
  pub candidate_findings : Option (List CandidateFinding)
  pub engineering_decisions : Option (List EngineeringDecision)
  pub sql_projection_validation : Option ProjectionValidation
  pub open_api_projection_validation : Option ProjectionValidation
  pub baseline_story_ids : Option (List Text)
  pub baseline_stories : Option (List Story)

pub data StoryReadinessStatus : Type 0 where
  implementation_ready not_ready : StoryReadinessStatus

pub record StoryReadinessReport : Type 0 where
  pub story_id : Text
  pub baseline_id : Text
  pub status : StoryReadinessStatus
  pub is_ready : Bool
  pub evaluated_at : Text
  pub failures : List StoryReadinessFailure
  pub passed_rules : List StoryReadinessRuleId
  pub policy : Option StoryReadinessPolicy

-- The loops that add what the scenarios name to what the story names.
unfoldable pub add_requirements : List GherkinScenario → List Text → List Text
add_requirements [] ids = ids
add_requirements (sc ∷ scs) ids = add_requirements scs (add_all sc.requirement_revision_ids ids)

unfoldable pub all_story_req_ids : Story → List Text
unfolding add_requirements
all_story_req_ids story = add_requirements story.scenarios (set_of story.requirement_revision_ids)

unfoldable pub add_policies : List GherkinScenario → List Text → List Text
add_policies [] ids = ids
add_policies (sc ∷ scs) ids =
    add_policies scs (add_all (value_or sc.policy_constraint_revision_ids []) ids)

unfoldable pub all_story_pol_ids : Story → List Text
unfolding add_policies
all_story_pol_ids story =
    add_policies story.scenarios (set_of (value_or story.policy_constraint_revision_ids []))

-- `if (ids.length > 0) failures.push(...) else passedRules.push(...)`, for the sorted ids.
unfoldable pub failure_of : StoryReadinessRuleId → List Text → Option StoryReadinessFailure
failure_of rule ids =
    if is_empty ids
    then none
    else some (record { rule_id = rule; affected_ids = sort compare_code_units ids })

-- Rule 1.
unfoldable pub check_baseline : StoryReadinessEvaluationContext → Option StoryReadinessFailure
check_baseline context = elim context.baseline [
  | none ↦
      some (record { rule_id = baseline_exists; affected_ids = context.story.baseline_id ∷ [] })
  | some b ↦ none
]

-- Rule 2. Without a baseline it fails, even for a story that names no revision.
unfoldable pub check_membership : StoryReadinessEvaluationContext → Option StoryReadinessFailure
unfolding failure_of
check_membership context = elim context.baseline [
  | none ↦ some (record {
    rule_id = requirement_revisions_belong_to_baseline;
    affected_ids = sort compare_code_units (all_story_req_ids context.story);
  })
  | some b ↦
      failure_of requirement_revisions_belong_to_baseline (
        keep (λ id. not (has id (set_of b.requirement_revisions)))
          (all_story_req_ids context.story))
]

-- `new Map(revisions.map((r) => [r.id, r]))`.
unfoldable pub requirement_map :
    List RequirementRevision → Map RequirementRevision → Map RequirementRevision
requirement_map [] m = m
requirement_map (r ∷ rs) m = requirement_map rs (set r.id r m)

unfoldable pub is_ready_requirement : Option RequirementRevision → Bool
is_ready_requirement none = false
is_ready_requirement (some r) = is_accepted r.review_state && is_clear r.resolution_state

-- Rule 3.
unfoldable pub check_requirements_accepted :
    StoryReadinessEvaluationContext → Option StoryReadinessFailure
unfolding failure_of is_ready_requirement
check_requirements_accepted context = failure_of requirements_accepted_and_clear (
    keep
      (λ id. not (is_ready_requirement (get id (requirement_map context.requirement_revisions []))))
      (all_story_req_ids context.story))

unfoldable pub policy_map :
    List PolicyConstraintRevision → Map PolicyConstraintRevision → Map PolicyConstraintRevision
policy_map [] m = m
policy_map (p ∷ ps) m = policy_map ps (set p.id p m)

unfoldable pub is_ready_policy : Option PolicyConstraintRevision → Bool
is_ready_policy none = false
is_ready_policy (some p) = is_policy_accepted p.state

unfoldable pub is_offending_policy :
    RequirementsBaseline → Map PolicyConstraintRevision → Text → Bool
unfolding is_ready_policy
is_offending_policy b known id =
    if not (has id (set_of b.policy_constraint_revisions))
    then true
    else not (is_ready_policy (get id known))

-- Rule 4.
unfoldable pub check_policy_constraints :
    StoryReadinessEvaluationContext → Option StoryReadinessFailure
unfolding failure_of is_offending_policy
check_policy_constraints context =
    if is_empty (all_story_pol_ids context.story) then none else elim context.baseline [
      | none ↦ some (record {
        rule_id = policy_constraints_valid;
        affected_ids = sort compare_code_units (all_story_pol_ids context.story);
      })
      | some b ↦ failure_of policy_constraints_valid (
          keep
            (is_offending_policy b
              (policy_map (value_or context.policy_constraint_revisions []) []))
            (all_story_pol_ids context.story))
    ]
