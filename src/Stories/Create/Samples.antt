-- ===== src/Stories/Create/Samples.antt =====
-- A story that is created, and one whose untrimmed reference is refused.
use solutions_studio.Base.{◌≡◌, refl, none, some, List, [], ◌∷◌}
use solutions_studio.Base.Text.{Text, codes, trim, has, Text-discrete}
use solutions_studio.Base.Numbers.{integer, pos, is_not_positive_integer, to_ℕ}
use solutions_studio.Base.Result.{ok, throw}
use solutions_studio.Ids.{
  create_story_id, create_requirements_baseline_id, create_requirement_revision_id,
  assert_non_empty,
}
use solutions_studio.Stories.Types.{GherkinScenario, Story, given}
use solutions_studio.Stories.Create.{
  CreateStoryParams, create_story, foreign_requirement_reference, create_narrative,
  story_requirement, story_policies, scenario_policies, create_scenario, create_step,
  scenario_requirement, criteria_of, story_dependencies, story_dependency, story_version,
  is_step_keyword,
}
use solutions_studio.Stories.Create.Laws.{IsStory, create_story-IsStory}

abbrev scenario : Text → GherkinScenario
scenario reference = record {
  id = none;
  title = codes " t1 ";
  requirement_revision_ids = reference ∷ [];
  policy_constraint_revision_ids = some [];
  steps = record { keyword = given; text = codes "x " } ∷ [];
  raw_text = none;
}

-- A story with one requirement and one scenario, which names it as `reference`.
abbrev pub params : (id reference : Text) → List Text → CreateStoryParams
params id reference dependencies = record {
  id = id;
  baseline_id = codes "B";
  title = codes "t";
  narrative = record {
    role = codes "r";
    feature = codes "f";
    benefit = codes "b";
    raw_text = none;
  };
  requirement_revision_ids = codes " R1" ∷ [];
  policy_constraint_revision_ids = none;
  scenarios = scenario reference ∷ [];
  acceptance_criteria = none;
  gherkin_text = codes "g";
  dependencies = some dependencies;
  created_at = none;
  version = some (integer (pos 2));
}

abbrev pub created : (id : Text) → List Text → Story
created id dependencies = record {
  id = id;
  baseline_id = codes "B";
  title = codes "t";
  narrative = record {
    role = codes "r";
    feature = codes "f";
    benefit = codes "b";
    raw_text = none;
  };
  requirement_revision_ids = codes "R1" ∷ [];
  policy_constraint_revision_ids = none;
  scenarios =
      record {
        id = none;
        title = codes "t1";
        requirement_revision_ids = codes "R1" ∷ [];
        policy_constraint_revision_ids = none;
        steps = record { keyword = given; text = codes "x" } ∷ [];
        raw_text = none;
      }
      ∷ [];
  acceptance_criteria = codes "t1" ∷ [];
  gherkin_text = codes "g";
  created_at = codes "now";
  dependencies = some dependencies;
  version = some 2;
}

-- What runs in the tests.
program : Unit {0}
unfolding create_story create_story_id create_requirements_baseline_id
    create_requirement_revision_id assert_non_empty create_narrative story_requirement
    story_policies scenario_policies create_scenario create_step scenario_requirement criteria_of
    story_dependencies story_dependency story_version is_step_keyword has Text-discrete trim
    is_not_positive_integer to_ℕ
program = tt

pub story_created :
    create_story (params (codes " s") (codes "R1") (codes "d" ∷ [])) (codes "now")
    ≡ ok (created (codes "s") (codes "d" ∷ []))
unfolding program
story_created = refl

-- The requirement is " R1" for both, yet the scenario's reference is refused.
untrimmed_reference :
    create_story (params (codes "s") (codes " R1") []) (codes "now")
    ≡ throw (foreign_requirement_reference (codes " t1 ") (codes " R1"))
unfolding program
untrimmed_reference = refl

create_story-IsStory_example : IsStory (created (codes "s") (codes "d" ∷ []))
create_story-IsStory_example =
    create_story-IsStory (params (codes " s") (codes "R1") (codes "d" ∷ [])) (codes "now")
      (created (codes "s") (codes "d" ∷ [])) story_created
