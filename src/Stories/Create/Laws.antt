-- ===== src/Stories/Create/Laws.antt =====
-- What `createStory` guarantees of a story.
use solutions_studio.Base.{
  ℕ, ◌≤◌, ◌≡◌, refl, true, false, Option, none, some, List, [], ◌∷◌, arith, All, length, is_empty,
  value_or,
}
use solutions_studio.Base.Text.{IsWritten, IsWritten-trim, Text, Text-discrete, trim, is_blank, has}
use solutions_studio.Base.Numbers.{Number, to_ℕ_positive}
use solutions_studio.Base.Result.{ok, traverse, traverse_at, traverse-All, traverse_at-All}
use solutions_studio.Ids.{
  assert_non_empty, create_story_id, create_requirements_baseline_id,
  create_requirement_revision_id,
}
use solutions_studio.Stories.Types.{StoryNarrative, GherkinStep, GherkinScenario, Story, deps}
use solutions_studio.Stories.Create.{
  CreateStoryParams, create_narrative, story_requirement, story_policy, story_policies,
  is_step_keyword, create_step, scenario_requirement, scenario_policy, scenario_policies,
  create_scenario, criteria_of, story_dependency, story_dependencies, story_version, create_story,
}

pub record IsNarrative (n : StoryNarrative) : Type 0 where
  pub role : IsWritten n.role
  pub feature : IsWritten n.feature
  pub benefit : IsWritten n.benefit

pub record IsStep (s : GherkinStep) : Type 0 where
  pub listed : is_step_keyword s.keyword ≡ true
  pub text : IsWritten s.text

-- A scenario of a story with these requirement and policy constraint revisions.
pub record IsScenario (requirements policies : List Text) (s : GherkinScenario) : Type 0 where
  pub title : IsWritten s.title
  pub has_steps : is_empty s.steps ≡ false
  pub steps : All IsStep s.steps
  pub has_requirements : is_empty s.requirement_revision_ids ≡ false
  pub requirements_declared : All (λ r. has r requirements ≡ true) s.requirement_revision_ids
  pub policies_declared :
      All (λ p. has p policies ≡ true) (value_or s.policy_constraint_revision_ids [])

pub record IsStory (s : Story) : Type 0 where
  pub id : IsWritten s.id
  pub baseline_id : IsWritten s.baseline_id
  pub title : IsWritten s.title
  pub narrative : IsNarrative s.narrative
  pub has_requirements : is_empty s.requirement_revision_ids ≡ false
  pub requirements : All IsWritten s.requirement_revision_ids
  pub policies : All (λ p. is_blank p ≡ false) (value_or s.policy_constraint_revision_ids [])
  pub has_scenarios : is_empty s.scenarios ≡ false
  pub scenarios :
      All
        (IsScenario s.requirement_revision_ids (value_or s.policy_constraint_revision_ids []))
        s.scenarios
  pub has_criteria : is_empty s.acceptance_criteria ≡ false
  pub gherkin_text : IsWritten s.gherkin_text
  pub dependencies : All IsWritten (deps s)
  pub version : 1 ≤ value_or s.version 1

-- A member of a list of written texts is one.
IsWritten_of_has : (a : Text) (xs : List Text) → has a xs ≡ true → All IsWritten xs → IsWritten a
unfolding has
IsWritten_of_has a [] h all = absurd cc
IsWritten_of_has a (x ∷ xs) h all = elim (Text-discrete a x) [
  | yes e ↦ rw e all.0
  | no n ↦ IsWritten_of_has a xs (ground arith) all.1
]

is_empty-length :
    {A B : Type 0} (xs : List A) (ys : List B)
    → length ys ≡ length xs
    → is_empty xs ≡ false
    → is_empty ys ≡ false
is_empty-length [] ys h e = cc
is_empty-length (x ∷ xs) [] h e = absurd (omega arith)
is_empty-length (x ∷ xs) (y ∷ ys) h e = refl

narrative_lem : (n m : StoryNarrative) → create_narrative n ≡ ok m → IsNarrative m
unfolding create_narrative
narrative_lem n m h =
    ground (arith, IsWritten-trim n.role, IsWritten-trim n.feature, IsWritten-trim n.benefit)

requirement_lem : (a b : Text) → story_requirement a ≡ ok b → IsWritten b
unfolding story_requirement create_requirement_revision_id assert_non_empty
requirement_lem a b h = ground (arith, IsWritten-trim a)

policy_lem : (a b : Text) → story_policy a ≡ ok b → is_blank b ≡ false
unfolding story_policy
policy_lem a b h = ground arith

policies_lem :
    (a b : Option (List Text))
    → story_policies a ≡ ok b
    → All (λ p. is_blank p ≡ false) (value_or b [])
unfolding story_policies
policies_lem a none h = tt
policies_lem none (some ps) h = absurd (ground arith)
policies_lem (some qs) (some ps) h =
    let all = traverse-All story_policy (λ p. is_blank p ≡ false) policy_lem qs ps (ground arith) in
    all.0

step_lem : (title : Text) (i : ℕ) (a b : GherkinStep) → create_step title i a ≡ ok b → IsStep b
unfolding create_step
step_lem title i a b h = ground (arith, IsWritten-trim a.text)

scenario_requirement_lem :
    (declared : List Text) (title a b : Text)
    → All IsWritten declared
    → scenario_requirement declared title a ≡ ok b
    → has b declared ≡ true
unfolding scenario_requirement create_requirement_revision_id assert_non_empty
scenario_requirement_lem declared title a b all h =
    ground
      (arith, λ (p : has a declared ≡ true). IsWritten.trimmed (IsWritten_of_has a declared p all))

scenario_policy_lem :
    (declared : List Text) (title a b : Text)
    → scenario_policy declared title a ≡ ok b
    → has b declared ≡ true
unfolding scenario_policy
scenario_policy_lem declared title a b h = ground arith

-- What went into a scenario.
record ScenarioParts (reqs pols : List Text) (a b : GherkinScenario) : Type 0 where
  titled : is_blank a.title ≡ false
  title : b.title ≡ trim a.title
  has_steps : is_empty a.steps ≡ false
  steps : traverse_at (create_step a.title) 0 a.steps ≡ ok b.steps
  has_requirements : is_empty a.requirement_revision_ids ≡ false
  requirements :
      traverse (scenario_requirement reqs a.title) a.requirement_revision_ids
      ≡ ok b.requirement_revision_ids
  policies :
      scenario_policies pols a.title a.policy_constraint_revision_ids
      ≡ ok b.policy_constraint_revision_ids

scenario_parts :
    (requirements policies : List Text) (i : ℕ) (a b : GherkinScenario)
    → create_scenario requirements policies i a ≡ ok b
    → ScenarioParts requirements policies a b
unfolding create_scenario
scenario_parts requirements policies i a b h = ground arith

scenario_policies_lem :
    (declared : List Text) (title : Text) (a b : Option (List Text))
    → scenario_policies declared title a ≡ ok b
    → All (λ p. has p declared ≡ true) (value_or b [])
unfolding scenario_policies
scenario_policies_lem declared title a none h = tt
scenario_policies_lem declared title none (some ps) h = absurd (ground arith)
scenario_policies_lem declared title (some []) (some ps) h = absurd (ground arith)
scenario_policies_lem declared title (some (q ∷ qs)) (some ps) h =
    let all =
      traverse-All (scenario_policy declared title) (λ p. has p declared ≡ true)
        (scenario_policy_lem declared title) (q ∷ qs) ps (ground arith) in
    all.0

scenario_lem :
    (requirements policies : List Text)
    → All IsWritten requirements
    → (i : ℕ) (a b : GherkinScenario) → create_scenario requirements policies i a ≡ ok b
    → IsScenario requirements policies b
scenario_lem requirements policies written i a b h =
    let p = scenario_parts requirements policies i a b h in
    let (steps, step_count) =
      traverse_at-All (create_step a.title) IsStep (step_lem a.title) 0 a.steps b.steps p.steps in
    let (references, reference_count) =
      traverse-All (scenario_requirement requirements a.title) (λ r. has r requirements ≡ true)
        (λ r s. scenario_requirement_lem requirements a.title r s written)
        a.requirement_revision_ids b.requirement_revision_ids p.requirements in
    record {
      title = rw p.title (IsWritten-trim a.title p.titled);
      has_steps = is_empty-length a.steps b.steps step_count p.has_steps;
      steps = steps;
      has_requirements =
          is_empty-length a.requirement_revision_ids b.requirement_revision_ids reference_count
            p.has_requirements;
      requirements_declared = references;
      policies_declared =
          scenario_policies_lem policies a.title a.policy_constraint_revision_ids
            b.policy_constraint_revision_ids p.policies;
    }

dependency_lem : (a b : Text) → story_dependency a ≡ ok b → IsWritten b
unfolding story_dependency create_story_id assert_non_empty
dependency_lem a b h = ground (arith, IsWritten-trim a)

dependencies_lem :
    (a b : Option (List Text)) → story_dependencies a ≡ ok b → All IsWritten (value_or b [])
unfolding story_dependencies
dependencies_lem a none h = tt
dependencies_lem none (some ds) h = absurd (ground arith)
dependencies_lem (some []) (some ds) h = absurd (ground arith)
dependencies_lem (some (e ∷ es)) (some ds) h =
    let all = traverse-All story_dependency IsWritten dependency_lem (e ∷ es) ds (ground arith) in
    all.0

version_lem : (a : Option Number) (b : Option ℕ) → story_version a ≡ ok b → 1 ≤ value_or b 1
unfolding story_version
version_lem none b h = ground arith
version_lem (some n) b h = ground (arith, to_ℕ_positive n)

criteria_lem :
    (given : Option (List Text)) (scenarios : List GherkinScenario)
    → is_empty scenarios ≡ false
    → is_empty (criteria_of given scenarios) ≡ false
unfolding criteria_of
criteria_lem given [] h = cc
criteria_lem none (s ∷ ss) h = refl
criteria_lem (some []) (s ∷ ss) h = refl
criteria_lem (some (c ∷ cs)) (s ∷ ss) h = refl

-- What went into a story.
record StoryParts (params : CreateStoryParams) (s : Story) : Type 0 where
  identified : is_blank params.id ≡ false
  id : s.id ≡ trim params.id
  based : is_blank params.baseline_id ≡ false
  baseline_id : s.baseline_id ≡ trim params.baseline_id
  titled : is_blank params.title ≡ false
  title : s.title ≡ trim params.title
  narrative : create_narrative params.narrative ≡ ok s.narrative
  has_requirements : is_empty params.requirement_revision_ids ≡ false
  requirements :
      traverse story_requirement params.requirement_revision_ids ≡ ok s.requirement_revision_ids
  has_scenarios : is_empty params.scenarios ≡ false
  policies :
      story_policies params.policy_constraint_revision_ids ≡ ok s.policy_constraint_revision_ids
  scenarios :
      traverse_at
        (create_scenario s.requirement_revision_ids (value_or s.policy_constraint_revision_ids []))
        0
        params.scenarios
      ≡ ok s.scenarios
  criteria : s.acceptance_criteria ≡ criteria_of params.acceptance_criteria s.scenarios
  gherkin_given : is_blank params.gherkin_text ≡ false
  gherkin_text : s.gherkin_text ≡ trim params.gherkin_text
  dependencies : story_dependencies params.dependencies ≡ ok s.dependencies
  version : story_version params.version ≡ ok s.version

story_parts :
    (params : CreateStoryParams) (now : Text) (s : Story)
    → create_story params now ≡ ok s
    → StoryParts params s
unfolding create_story create_story_id create_requirements_baseline_id assert_non_empty
story_parts params now s h = ground arith

-- In a story that is created, the identifier, the baseline's, the title, the narrative, the Gherkin text,
-- the requirement revisions, the dependencies, and the titles and steps of the scenarios are trimmed and
-- not empty; the policy constraint revisions are not blank. It has a requirement revision, a scenario,
-- an acceptance criterion and a version of at least 1 if any. Every scenario has steps with known
-- keywords and requirement revisions, and refers only to requirement and policy constraint revisions of
-- the story.
pub create_story-IsStory :
    (params : CreateStoryParams) (now : Text) (s : Story)
    → create_story params now ≡ ok s
    → IsStory s
create_story-IsStory params now s h =
    let p = story_parts params now s h in
    let (requirements, requirement_count) =
      traverse-All story_requirement IsWritten requirement_lem params.requirement_revision_ids
        s.requirement_revision_ids p.requirements in
    let (scenarios, scenario_count) =
      traverse_at-All
        (create_scenario s.requirement_revision_ids (value_or s.policy_constraint_revision_ids []))
        (IsScenario s.requirement_revision_ids (value_or s.policy_constraint_revision_ids []))
        (scenario_lem s.requirement_revision_ids (value_or s.policy_constraint_revision_ids [])
          requirements)
        0 params.scenarios s.scenarios p.scenarios in
    let has_scenarios =
      is_empty-length params.scenarios s.scenarios scenario_count p.has_scenarios in
    record {
      id = rw p.id (IsWritten-trim params.id p.identified);
      baseline_id = rw p.baseline_id (IsWritten-trim params.baseline_id p.based);
      title = rw p.title (IsWritten-trim params.title p.titled);
      narrative = narrative_lem params.narrative s.narrative p.narrative;
      has_requirements =
          is_empty-length params.requirement_revision_ids s.requirement_revision_ids
            requirement_count p.has_requirements;
      requirements = requirements;
      policies =
          policies_lem params.policy_constraint_revision_ids s.policy_constraint_revision_ids
            p.policies;
      has_scenarios = has_scenarios;
      scenarios = scenarios;
      has_criteria =
          rw p.criteria (criteria_lem params.acceptance_criteria s.scenarios has_scenarios);
      gherkin_text = rw p.gherkin_text (IsWritten-trim params.gherkin_text p.gherkin_given);
      dependencies = dependencies_lem params.dependencies s.dependencies p.dependencies;
      version = version_lem params.version s.version p.version;
    }
