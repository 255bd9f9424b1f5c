-- ===== src/Stories/Readiness/Rules.antt =====
-- The rules of `evaluateStoryReadiness` on findings, traceability, decisions and projections.
use solutions_studio.Base.{
  Bool, true, false, not, ◌&&◌, ◌||◌, Option, none, some, List, [], ◌∷◌, ◌++◌, map, keep, any,
  value_or, is_empty, if◌then◌else◌,
}
use solutions_studio.Base.Text.{Text, Text-discrete, has, same, same_option}
use solutions_studio.Base.Sets.{set_of}
use solutions_studio.Requirements.Types.{
  FindingType, CandidateFinding, EngineeringDecision, EngineeringDecisionState, proposed,
}
use solutions_studio.Requirements.Finding.{is_finding_type, is_open}
use solutions_studio.Stories.Types.{Story, GherkinScenario}
use solutions_studio.Stories.Readiness.{
  StoryReadinessRuleId, no_blocking_open_findings, story_traceability_declared,
  engineering_decisions_accepted_or_deferred, sql_projection_valid, openapi_projection_valid,
  StoryReadinessFailure, StoryReadinessPolicy, ProjectionValidation,
  StoryReadinessEvaluationContext, all_story_req_ids, failure_of,
}

pub FindingType-discrete : Discrete FindingType
FindingType-discrete = hlevel Text-discrete

abbrev pub same_type : FindingType → FindingType → Bool
same_type a b = elim (FindingType-discrete a b) [ yes _ ↦ true | no _ ↦ false ]

-- `new Set(policy?.blockingFindingTypes ?? FINDING_TYPES).has(type)`.
unfoldable pub is_blocking_type : Option StoryReadinessPolicy → FindingType → Bool
is_blocking_type none t = is_finding_type t
is_blocking_type (some p) t = elim p.blocking_finding_types [
  | none ↦ is_finding_type t
  | some ts ↦ any (same_type t) ts
]

-- The finding concerns the story: it affects one of its revisions, or the whole baseline.
unfoldable pub is_blocking_finding :
    Option StoryReadinessPolicy → Story → List Text → CandidateFinding → Bool
unfolding is_blocking_type
is_blocking_finding policy story req_ids f =
    is_open f.disposition
    && is_blocking_type policy f.type
    && (any (λ r. has r req_ids) f.affected_requirement_revisions
        || (same_option f.baseline_id (some story.baseline_id)
            && is_empty f.affected_requirement_revisions))

-- Rule 5.
unfoldable pub check_findings :
    StoryReadinessEvaluationContext → Option StoryReadinessPolicy → Option StoryReadinessFailure
unfolding is_blocking_finding
check_findings context policy = failure_of no_blocking_open_findings (
    map (λ (f : CandidateFinding). f.id)
      (keep (is_blocking_finding policy context.story (all_story_req_ids context.story))
        (value_or context.candidate_findings [])))

-- `if (test) untraceableIds.push(id)`.
abbrev pub push_if : Bool → Text → List Text
push_if true id = id ∷ []
push_if false id = []

-- A push for every element outside the declared ones.
abbrev pub undeclared : List Text → Text → List Text → List Text
undeclared declared id xs = map (λ _. id) (keep (λ x. not (has x declared)) xs)

-- What the loop pushes for a scenario. The third alternative of its name is for a title that is not
-- given, which the type rules out.
unfoldable pub untraceable_scenario : (req_ids pol_ids : List Text) → GherkinScenario → List Text
untraceable_scenario req_ids pol_ids sc =
    let id = value_or sc.id sc.title in
    push_if (is_empty sc.steps) id
    ++ ((if is_empty sc.requirement_revision_ids
          then id ∷ []
          else undeclared req_ids id sc.requirement_revision_ids)
        ++ undeclared pol_ids id (value_or sc.policy_constraint_revision_ids []))

unfoldable pub untraceable_scenarios :
    (req_ids pol_ids : List Text) → List GherkinScenario → List Text
unfolding untraceable_scenario
untraceable_scenarios req_ids pol_ids [] = []
untraceable_scenarios req_ids pol_ids (sc ∷ scs) =
    untraceable_scenario req_ids pol_ids sc ++ untraceable_scenarios req_ids pol_ids scs

-- Rule 6.
unfoldable pub check_traceability : StoryReadinessEvaluationContext → Option StoryReadinessFailure
unfolding untraceable_scenarios
check_traceability context =
    let story = context.story in
    failure_of story_traceability_declared (
      set_of (
        if is_empty story.scenarios
        then story.id ∷ []
        else untraceable_scenarios story.requirement_revision_ids
            (value_or story.policy_constraint_revision_ids []) story.scenarios))

-- `value === true`, and `value !== false`.
abbrev pub is_true : Option Bool → Bool
is_true none = false
is_true (some b) = b

abbrev pub is_not_false : Option Bool → Bool
is_not_false none = true
is_not_false (some b) = b

unfoldable pub allows_deferred : Option StoryReadinessPolicy → Bool
allows_deferred none = true
allows_deferred (some p) = is_not_false p.allow_deferred_engineering_decisions

-- The state of the decision fails the story.
unfoldable pub is_failing_state : Bool → EngineeringDecisionState → Bool
is_failing_state allow_deferred EngineeringDecisionState.rejected = true
is_failing_state allow_deferred proposed = not allow_deferred
is_failing_state allow_deferred _ = false

unfoldable pub is_failing_decision : Bool → Story → List Text → EngineeringDecision → Bool
unfolding is_failing_state
is_failing_decision allow_deferred story req_ids d =
    same d.baseline_id story.baseline_id
    && (is_empty d.requirement_revision_ids || any (λ r. has r req_ids) d.requirement_revision_ids)
    && is_failing_state allow_deferred d.state

-- Rule 7.
unfoldable pub check_decisions :
    StoryReadinessEvaluationContext → Option StoryReadinessPolicy → Option StoryReadinessFailure
unfolding is_failing_decision allows_deferred
check_decisions context policy = failure_of engineering_decisions_accepted_or_deferred (
    map (λ (d : EngineeringDecision). d.id)
      (keep
        (is_failing_decision (allows_deferred policy) context.story
          (all_story_req_ids context.story))
        (value_or context.engineering_decisions [])))

-- The projection exists and is invalid: the identifier that is reported.
unfoldable pub check_validity :
    StoryReadinessRuleId → Story → ProjectionValidation → Option StoryReadinessFailure
check_validity rule story v =
    if not v.is_valid
    then some (record { rule_id = rule; affected_ids = value_or v.id story.baseline_id ∷ [] })
    else none

-- The body that rules 8 and 9 share, for a required projection and for one that is not.
unfoldable pub check_projection :
    StoryReadinessRuleId → Story → Bool → Option ProjectionValidation → Option StoryReadinessFailure
unfolding check_validity
check_projection rule story required none =
    if required
    then some (record { rule_id = rule; affected_ids = story.baseline_id ∷ [] })
    else none
check_projection rule story required (some v) =
    if v.exists
    then check_validity rule story v
    else if required
    then some (record { rule_id = rule; affected_ids = story.baseline_id ∷ [] })
    else none

-- Rule 8.
unfoldable pub check_sql_projection :
    StoryReadinessEvaluationContext → Option StoryReadinessPolicy → Option StoryReadinessFailure
unfolding check_projection
check_sql_projection context policy =
    check_projection sql_projection_valid context.story
      (elim policy [ none ↦ false | some p ↦ is_true p.require_sql_projection ])
      context.sql_projection_validation

-- Rule 9.
unfoldable pub check_openapi_projection :
    StoryReadinessEvaluationContext → Option StoryReadinessPolicy → Option StoryReadinessFailure
unfolding check_projection
check_openapi_projection context policy =
    check_projection openapi_projection_valid context.story
      (elim policy [ none ↦ false | some p ↦ is_true p.require_open_api_projection ])
      context.open_api_projection_validation
