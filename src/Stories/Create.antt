-- ===== src/Stories/Create.antt =====
-- `createStory` of packages/domain/src/requirements/Story.ts. `now()` is the argument `now`. An error
-- is kept without the wording of its message.
pub mod Laws
pub mod Samples
use solutions_studio.Base.{
  ℕ, Bool, true, false, not, Option, none, some, List, [], ◌∷◌, map, is_empty, value_or,
  if◌then◌else◌,
}
use solutions_studio.Base.Text.{Text, trim, is_blank, has}
use solutions_studio.Base.Numbers.{Number, is_not_positive_integer, to_ℕ}
use solutions_studio.Base.Result.{Result, ok, throw, ◌>>=◌, ◌>>◌, throw_if, traverse, traverse_at}
use solutions_studio.Ids.{
  IdError, create_story_id, create_requirements_baseline_id, create_requirement_revision_id,
}
use solutions_studio.Stories.Types.{
  StoryNarrative, GherkinStepKeyword, GherkinStep, GherkinScenario, Story,
}

-- The parameters' narrative, scenarios and steps have the fields of a story's.
pub record CreateStoryParams : Type 0 where
  pub id : Text
  pub baseline_id : Text
  pub title : Text
  pub narrative : StoryNarrative
  pub requirement_revision_ids : List Text
  pub policy_constraint_revision_ids : Option (List Text)
  pub scenarios : List GherkinScenario
  pub acceptance_criteria : Option (List Text)
  pub gherkin_text : Text
  pub dependencies : Option (List Text)
  pub created_at : Option Text
  pub version : Option Number

pub data StoryInvariantViolation : Type 0 where
  id_required baseline_id_required title_required : StoryInvariantViolation
  role_required feature_required benefit_required : StoryInvariantViolation
  requirement_revisions_required empty_requirement_revision : StoryInvariantViolation
  empty_policy_constraint_revision scenarios_required : StoryInvariantViolation
  scenario_title_required : (index : ℕ) → StoryInvariantViolation
  steps_required : (scenario : Text) → StoryInvariantViolation
  invalid_keyword : (scenario : Text) (index : ℕ) → GherkinStepKeyword → StoryInvariantViolation
  step_text_required : (scenario : Text) (index : ℕ) → StoryInvariantViolation
  requirement_reference_required : (scenario : Text) → StoryInvariantViolation
  empty_requirement_reference : (scenario : Text) → StoryInvariantViolation
  foreign_requirement_reference : (scenario id : Text) → StoryInvariantViolation
  empty_policy_reference : (scenario : Text) → StoryInvariantViolation
  foreign_policy_reference : (scenario id : Text) → StoryInvariantViolation
  gherkin_text_required empty_dependency invalid_version : StoryInvariantViolation
  invalid_id : IdError → StoryInvariantViolation

abbrev pub lift_id : Result IdError Text → Result StoryInvariantViolation Text
lift_id (ok a) = ok a
lift_id (throw e) = throw (invalid_id e)

unfoldable pub create_narrative : StoryNarrative → Result StoryInvariantViolation StoryNarrative
create_narrative n = do
  throw_if (is_blank n.role) role_required
  throw_if (is_blank n.feature) feature_required
  throw_if (is_blank n.benefit) benefit_required
  ok (record {
    role = trim n.role;
    feature = trim n.feature;
    benefit = trim n.benefit;
    raw_text = n.raw_text;
  })

unfoldable pub story_requirement : Text → Result StoryInvariantViolation Text
story_requirement rid = do
  throw_if (is_blank rid) empty_requirement_revision
  lift_id (create_requirement_revision_id rid)

-- The identifier of a policy constraint revision is kept as it is given.
unfoldable pub story_policy : Text → Result StoryInvariantViolation Text
story_policy pid = do throw_if (is_blank pid) empty_policy_constraint_revision; ok pid

unfoldable pub story_policies :
    Option (List Text) → Result StoryInvariantViolation (Option (List Text))
story_policies none = ok none
story_policies (some pids) = do ids ← traverse story_policy pids; ok (some ids)

-- `GHERKIN_STEP_KEYWORDS.includes(keyword)`.
unfoldable pub is_step_keyword : GherkinStepKeyword → Bool
is_step_keyword (GherkinStepKeyword.unlisted _) = false
is_step_keyword _ = true

unfoldable pub create_step :
    (scenario : Text) (index : ℕ) → GherkinStep → Result StoryInvariantViolation GherkinStep
create_step scenario index step = do
  throw_if (not (is_step_keyword step.keyword)) (invalid_keyword scenario index step.keyword)
  throw_if (is_blank step.text) (step_text_required scenario index)
  ok (record { keyword = step.keyword; text = trim step.text })

-- The membership test reads the identifier as it is given.
unfoldable pub scenario_requirement :
    (declared : List Text) (scenario : Text) → Text → Result StoryInvariantViolation Text
scenario_requirement declared scenario rid = do
  throw_if (is_blank rid) (empty_requirement_reference scenario)
  throw_if (not (has rid declared)) (foreign_requirement_reference scenario rid)
  lift_id (create_requirement_revision_id rid)

unfoldable pub scenario_policy :
    (declared : List Text) (scenario : Text) → Text → Result StoryInvariantViolation Text
scenario_policy declared scenario pid = do
  throw_if (is_blank pid) (empty_policy_reference scenario)
  throw_if (not (has pid declared)) (foreign_policy_reference scenario pid)
  ok pid

unfoldable pub scenario_policies :
    (declared : List Text) (scenario : Text)
    → Option (List Text)
    → Result StoryInvariantViolation (Option (List Text))
scenario_policies declared scenario none = ok none
scenario_policies declared scenario (some []) = ok none
scenario_policies declared scenario (some (p ∷ ps)) = do
  ids ← traverse (scenario_policy declared scenario) (p ∷ ps)
  ok (some ids)

-- The body of the loop over the scenarios.
unfoldable pub create_scenario :
    (requirements policies : List Text) (index : ℕ)
    → GherkinScenario
    → Result StoryInvariantViolation GherkinScenario
create_scenario requirements policies index s = do
  throw_if (is_blank s.title) (scenario_title_required index)
  throw_if (is_empty s.steps) (steps_required s.title)
  steps ← traverse_at (create_step s.title) 0 s.steps
  throw_if (is_empty s.requirement_revision_ids) (requirement_reference_required s.title)
  req_ids ← traverse (scenario_requirement requirements s.title) s.requirement_revision_ids
  pol_ids ← scenario_policies policies s.title s.policy_constraint_revision_ids
  ok (record {
    id = s.id;
    title = trim s.title;
    requirement_revision_ids = req_ids;
    policy_constraint_revision_ids = pol_ids;
    steps = steps;
    raw_text = s.raw_text;
  })

-- The criteria that are given, or the titles of the scenarios.
unfoldable pub criteria_of : Option (List Text) → List GherkinScenario → List Text
criteria_of none scenarios = map (λ s. s.title) scenarios
criteria_of (some []) scenarios = map (λ s. s.title) scenarios
criteria_of (some (c ∷ cs)) scenarios = c ∷ cs

unfoldable pub story_dependency : Text → Result StoryInvariantViolation Text
story_dependency dep = do throw_if (is_blank dep) empty_dependency; lift_id (create_story_id dep)

unfoldable pub story_dependencies :
    Option (List Text) → Result StoryInvariantViolation (Option (List Text))
story_dependencies none = ok none
story_dependencies (some []) = ok none
story_dependencies (some (d ∷ ds)) = do ids ← traverse story_dependency (d ∷ ds); ok (some ids)

unfoldable pub story_version : Option Number → Result StoryInvariantViolation (Option ℕ)
story_version none = ok none
story_version (some n) = do throw_if (is_not_positive_integer n) invalid_version; ok (some (to_ℕ n))

unfoldable pub create_story :
    CreateStoryParams → (now : Text) → Result StoryInvariantViolation Story
create_story params now = do
  throw_if (is_blank params.id) id_required
  id ← lift_id (create_story_id params.id)
  throw_if (is_blank params.baseline_id) baseline_id_required
  baseline_id ← lift_id (create_requirements_baseline_id params.baseline_id)
  throw_if (is_blank params.title) title_required
  narrative ← create_narrative params.narrative
  throw_if (is_empty params.requirement_revision_ids) requirement_revisions_required
  req_ids ← traverse story_requirement params.requirement_revision_ids
  pol_ids ← story_policies params.policy_constraint_revision_ids
  throw_if (is_empty params.scenarios) scenarios_required
  scenarios ← traverse_at (create_scenario req_ids (value_or pol_ids [])) 0 params.scenarios
  throw_if (is_blank params.gherkin_text) gherkin_text_required
  dependencies ← story_dependencies params.dependencies
  version ← story_version params.version
  ok (record {
    id = id;
    baseline_id = baseline_id;
    title = trim params.title;
    narrative = narrative;
    requirement_revision_ids = req_ids;
    policy_constraint_revision_ids = pol_ids;
    scenarios = scenarios;
    acceptance_criteria = criteria_of params.acceptance_criteria scenarios;
    gherkin_text = trim params.gherkin_text;
    created_at = value_or params.created_at now;
    dependencies = dependencies;
    version = version;
  })
