-- ===== src/Stories/Readiness/Samples.antt =====
-- A story that is ready, and the theorem at it.
use solutions_studio.Base.{◌≡◌, ◌≢◌, refl, true, none, some, [], ◌∷◌, any, keep}
use solutions_studio.Base.Text.{Text, codes, has, Text-discrete}
use solutions_studio.Base.Numbers.{compare_code_units}
use solutions_studio.Base.Text.{trim}
use solutions_studio.Base.Counts.{sort}
use solutions_studio.Base.Maps.{get, set}
use solutions_studio.Base.Sets.{set_of, add_all}
use solutions_studio.Ids.{create_story_id}
use solutions_studio.Requirements.Baseline.{is_accepted, is_clear}
use solutions_studio.Requirements.Finding.{is_open, is_finding_type}
use solutions_studio.Stories.Cycles.{find_cyclic_story_ids}
use solutions_studio.Base.Result.{ok, throw}
use solutions_studio.Requirements.Types.{
  RequirementRevision, RequirementCategory, RequirementOrigin, RequirementReviewState,
  RequirementResolutionState, RequirementsBaseline, CandidateFinding, FindingType, open_finding,
  DiscoveredBy, EngineeringDecision, EngineeringDecisionState,
}
use solutions_studio.Stories.Types.{Story, GherkinScenario, given, out_of_fuel}
use solutions_studio.Stories.Readiness.{
  StoryReadinessEvaluationContext, StoryReadinessReport, implementation_ready, baseline_exists,
  requirement_revisions_belong_to_baseline, requirements_accepted_and_clear,
  policy_constraints_valid, no_blocking_open_findings, story_traceability_declared,
  engineering_decisions_accepted_or_deferred, sql_projection_valid, openapi_projection_valid,
  story_dependencies_exist, check_baseline, check_membership, check_requirements_accepted,
  check_policy_constraints, all_story_req_ids, all_story_pol_ids, requirement_map, failure_of,
}
use solutions_studio.Stories.Readiness.Rules.{
  check_findings, check_traceability, check_decisions, check_sql_projection,
  check_openapi_projection,
}
use solutions_studio.Stories.Readiness.Evaluation.{evaluate_story_readiness, rule_text}
use solutions_studio.Stories.Readiness.Ends.{evaluate_story_readiness_ends}
use solutions_studio.Stories.Readiness.Ready.{
  IsImplementable, evaluate_story_readiness-IsImplementable,
}

abbrev now : Text
now = codes "2026-01-01T00:00:00Z"

abbrev requirement : RequirementRevision
requirement = record {
  id = codes "R1";
  requirement_id = codes "R";
  revision = 1;
  statement = codes "Export is audited.";
  category = RequirementCategory.business_rule;
  origin = RequirementOrigin.assumed;
  review_state = RequirementReviewState.accepted;
  resolution_state = RequirementResolutionState.clear;
  evidence = [];
  rationale = none;
  actor_id = none;
  baseline_id = none;
  originating_projection_id = none;
  affected_actors = none;
  dependencies = none;
  supersedes = none;
}

abbrev baseline : RequirementsBaseline
baseline = record {
  id = codes "B";
  requirement_revisions = codes "R1" ∷ [];
  policy_constraint_revisions = [];
  created_at = now;
  created_by = codes "ana";
}

abbrev scenario : GherkinScenario
scenario = record {
  id = none;
  title = codes "s";
  requirement_revision_ids = codes "R1" ∷ [];
  policy_constraint_revision_ids = none;
  steps = record { keyword = given; text = codes "x" } ∷ [];
  raw_text = none;
}

abbrev other_story : Story
other_story = record {
  id = codes "S1";
  baseline_id = codes "B";
  title = codes "t";
  narrative = record {
    role = codes "r";
    feature = codes "f";
    benefit = codes "b";
    raw_text = none;
  };
  requirement_revision_ids = codes "R1" ∷ [];
  policy_constraint_revision_ids = none;
  scenarios = scenario ∷ [];
  acceptance_criteria = [];
  gherkin_text = codes "g";
  created_at = now;
  dependencies = none;
  version = none;
}

abbrev story : Story
story = record other_story { id = codes "S2"; dependencies = some (codes "S1" ∷ []) }

-- An open finding on another requirement.
abbrev finding : CandidateFinding
finding = record {
  id = codes "F";
  type = FindingType.contradiction;
  affected_requirement_revisions = codes "R2" ∷ [];
  evidence = [];
  discovered_by = DiscoveredBy.heuristic;
  disposition = open_finding;
  rationale = none;
  actor_id = none;
  baseline_id = none;
  originating_projection_id = none;
}

-- A decision that is not taken yet, which the default policy lets pass.
abbrev decision : EngineeringDecision
decision = record {
  id = codes "D";
  baseline_id = codes "B";
  statement = codes "Use queues.";
  rationale = codes "Retries.";
  requirement_revision_ids = [];
  policy_constraint_revision_ids = [];
  state = EngineeringDecisionState.proposed;
  created_at = now;
  created_by = codes "ana";
  accepted_by = none;
  accepted_at = none;
  supersedes = none;
  transition_rationale = none;
}

abbrev context : StoryReadinessEvaluationContext
context = record {
  story = story;
  baseline = some baseline;
  requirement_revisions = requirement ∷ [];
  policy_constraint_revisions = none;
  candidate_findings = some (finding ∷ []);
  engineering_decisions = some (decision ∷ []);
  sql_projection_validation = none;
  open_api_projection_validation = none;
  baseline_story_ids = none;
  baseline_stories = some (story ∷ other_story ∷ []);
}

abbrev report : StoryReadinessReport
report = record {
  story_id = codes "S2";
  baseline_id = codes "B";
  status = implementation_ready;
  is_ready = true;
  evaluated_at = now;
  failures = [];
  passed_rules =
      baseline_exists ∷ engineering_decisions_accepted_or_deferred ∷ no_blocking_open_findings
      ∷ openapi_projection_valid ∷ policy_constraints_valid
      ∷ requirement_revisions_belong_to_baseline ∷ requirements_accepted_and_clear
      ∷ sql_projection_valid ∷ story_dependencies_exist ∷ story_traceability_declared ∷ [];
  policy = none;
}

evaluated : evaluate_story_readiness compare_code_units context none none now ≡ ok report
unfolding evaluate_story_readiness Text-discrete keep has any set_of add_all find_cyclic_story_ids
    sort set get compare_code_units create_story_id check_baseline check_membership
    check_requirements_accepted check_policy_constraints check_findings check_traceability
    check_decisions check_sql_projection check_openapi_projection rule_text all_story_req_ids
    all_story_pol_ids requirement_map is_accepted is_clear is_open is_finding_type failure_of trim
evaluated = refl

evaluate_story_readiness-IsImplementable_example : IsImplementable compare_code_units context none
evaluate_story_readiness-IsImplementable_example =
    evaluate_story_readiness-IsImplementable compare_code_units context none none now report
      evaluated refl

evaluate_story_readiness_ends_example :
    evaluate_story_readiness compare_code_units context none none now ≢ throw out_of_fuel
evaluate_story_readiness_ends_example =
    evaluate_story_readiness_ends compare_code_units context none none now
