-- ===== src/Stories/Readiness/Evaluation.antt =====
-- The rule of `evaluateStoryReadiness` on dependencies, and the report. `now()` is the argument `now`.
use Prim.Native.Nat.{Ordering}
use solutions_studio.Base.{
  true, not, Option, none, some, List, [], ◌∷◌, ◌++◌, map, keep, find, value_or, is_empty,
  if◌then◌else◌,
}
use solutions_studio.Base.Text.{Text, codes, has, same}
use solutions_studio.Base.Counts.{sort}
use solutions_studio.Base.Sets.{set_of}
use solutions_studio.Base.Numbers.{compare_code_units}
use solutions_studio.Base.Result.{Result, ok, ◌>>=◌}
use solutions_studio.Stories.Types.{Story, GraphError, deps}
use solutions_studio.Stories.Cycles.{find_cyclic_story_ids}
use solutions_studio.Stories.CycleSearch.{find_cycle_for_story, detect_cycles}
use solutions_studio.Stories.Readiness.{
  StoryReadinessRuleId, baseline_exists, requirement_revisions_belong_to_baseline,
  requirements_accepted_and_clear, policy_constraints_valid, no_blocking_open_findings,
  story_traceability_declared, engineering_decisions_accepted_or_deferred, sql_projection_valid,
  openapi_projection_valid, story_dependencies_exist, StoryReadinessFailure, StoryReadinessPolicy,
  StoryReadinessEvaluationContext, implementation_ready, not_ready, StoryReadinessReport,
  failure_of, check_baseline, check_membership, check_requirements_accepted,
  check_policy_constraints,
}
use solutions_studio.Stories.Readiness.Rules.{
  check_findings, check_traceability, check_decisions, check_sql_projection,
  check_openapi_projection,
}

unfoldable pub known_story_ids : StoryReadinessEvaluationContext → List Text
known_story_ids context =
    value_or context.baseline_story_ids []
    ++ map (λ (s : Story). s.id) (value_or context.baseline_stories [])

unfoldable pub offending_dependencies : StoryReadinessEvaluationContext → List Text
unfolding known_story_ids
offending_dependencies context =
    keep
      (λ d.
        if same d context.story.id then true else not (has d (set_of (known_story_ids context))))
      (deps context.story)

-- The text of a rule, by which the passed rules are sorted.
unfoldable pub rule_text : StoryReadinessRuleId → Text
rule_text baseline_exists = codes "baseline-exists"
rule_text requirement_revisions_belong_to_baseline =
    codes "requirement-revisions-belong-to-baseline"
rule_text requirements_accepted_and_clear = codes "requirements-accepted-and-clear"
rule_text policy_constraints_valid = codes "policy-constraints-valid"
rule_text no_blocking_open_findings = codes "no-blocking-open-findings"
rule_text story_traceability_declared = codes "story-traceability-declared"
rule_text engineering_decisions_accepted_or_deferred =
    codes "engineering-decisions-accepted-or-deferred"
rule_text sql_projection_valid = codes "sql-projection-valid"
rule_text openapi_projection_valid = codes "openapi-projection-valid"
rule_text story_dependencies_exist = codes "story-dependencies-exist"

abbrev pub compare_rules : StoryReadinessRuleId → StoryReadinessRuleId → Ordering
compare_rules a b = compare_code_units (rule_text a) (rule_text b)

-- A rule with its failure, and none when it passed.
abbrev pub Outcome : Type 0
Outcome = StoryReadinessRuleId × Option StoryReadinessFailure

unfoldable pub failures_of : List Outcome → List StoryReadinessFailure
failures_of [] = []
failures_of ((rule, none) ∷ os) = failures_of os
failures_of ((rule, some f) ∷ os) = f ∷ failures_of os

unfoldable pub passed_of : List Outcome → List StoryReadinessRuleId
passed_of [] = []
passed_of ((rule, none) ∷ os) = rule ∷ passed_of os
passed_of ((rule, some f) ∷ os) = passed_of os

module _ (locale_compare : Text → Text → Ordering) where
  unfoldable pub participating_cycle : Text → List Story → Result GraphError (List Text)
  participating_cycle id stories = do
    cycles ← detect_cycles locale_compare stories
    elim (find (λ c. has id c) cycles) [
      | some c ↦ ok c
      | none ↦ do
        own ← find_cycle_for_story locale_compare id stories
        ok (value_or own (id ∷ id ∷ []))
    ]

  unfoldable pub report_cycle : Text → List Story → Result GraphError (Option StoryReadinessFailure)
  unfolding participating_cycle
  report_cycle id stories = do
    c ← participating_cycle id stories
    ok (some (record { rule_id = story_dependencies_exist; affected_ids = c }))

  unfoldable pub check_cycles : Text → List Story → Result GraphError (Option StoryReadinessFailure)
  unfolding report_cycle
  check_cycles id stories = do
    cyclic ← find_cyclic_story_ids locale_compare stories
    if has id cyclic then report_cycle id stories else ok none

  -- Rule 10.
  unfoldable pub check_story_dependencies :
      StoryReadinessEvaluationContext → Result GraphError (Option StoryReadinessFailure)
  unfolding offending_dependencies check_cycles
  check_story_dependencies context =
      if is_empty (deps context.story)
      then ok none
      else if not (is_empty (offending_dependencies context))
      then ok (failure_of story_dependencies_exist (offending_dependencies context))
      else elim context.baseline_stories [
        | none ↦ ok none
        | some stories ↦ check_cycles context.story.id stories
      ]

  -- The rules in the order of the code.
  unfoldable pub outcomes :
      StoryReadinessEvaluationContext
      → Option StoryReadinessPolicy
      → Result GraphError (List Outcome)
  unfolding check_story_dependencies
  outcomes context policy = do
    dependencies ← check_story_dependencies context
    ok (
        (baseline_exists, check_baseline context)
        ∷ (requirement_revisions_belong_to_baseline, check_membership context)
        ∷ (requirements_accepted_and_clear, check_requirements_accepted context)
        ∷ (policy_constraints_valid, check_policy_constraints context)
        ∷ (no_blocking_open_findings, check_findings context policy)
        ∷ (story_traceability_declared, check_traceability context)
        ∷ (engineering_decisions_accepted_or_deferred, check_decisions context policy)
        ∷ (sql_projection_valid, check_sql_projection context policy)
        ∷ (openapi_projection_valid, check_openapi_projection context policy)
        ∷ (story_dependencies_exist, dependencies)
        ∷ [])

  unfoldable pub evaluate_story_readiness :
      StoryReadinessEvaluationContext
      → Option StoryReadinessPolicy
      → (evaluated_at : Option Text) (now : Text) → Result GraphError StoryReadinessReport
  unfolding outcomes failures_of passed_of
  evaluate_story_readiness context policy evaluated_at now = do
    os ← outcomes context policy
    let is_ready = is_empty (failures_of os)
    ok (record {
      story_id = context.story.id;
      baseline_id = context.story.baseline_id;
      status = if is_ready then implementation_ready else not_ready;
      is_ready = is_ready;
      evaluated_at = value_or evaluated_at now;
      failures = failures_of os;
      passed_rules = sort compare_rules (passed_of os);
      policy = policy;
    })
