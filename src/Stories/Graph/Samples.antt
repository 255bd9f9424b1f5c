-- ===== src/Stories/Graph/Samples.antt =====
-- A cycle of two stories, and what validation reports of it.
use Prim.Native.String.{String}
use solutions_studio.Base.{◌≡◌, refl, false, none, some, List, [], ◌∷◌, any, keep}
use solutions_studio.Base.Text.{Text, codes, trim, Text-discrete, has}
use solutions_studio.Base.Numbers.{compare_code_units}
use solutions_studio.Base.Maps.{get, set}
use solutions_studio.Base.Counts.{sort}
use solutions_studio.Base.Sets.{add_all}
use solutions_studio.Base.Result.{ok}
use solutions_studio.Ids.{create_story_id}
use solutions_studio.Stories.Types.{Story, unknown_dependency, cycle}
use solutions_studio.Stories.Cycles.{find_cyclic_story_ids}
use solutions_studio.Stories.CycleSearch.{
  detect_cycles, find_cycle_for_story, normalize_cycle, join,
}
use solutions_studio.Stories.Graph.{validate_story_dependencies, error_text}

abbrev story : String → List Text → Story
story id dependencies = record {
  id = codes id;
  baseline_id = codes "BASE-1";
  title = codes "t";
  narrative = record {
    role = codes "r";
    feature = codes "f";
    benefit = codes "b";
    raw_text = none;
  };
  requirement_revision_ids = codes "REQ-1@r1" ∷ [];
  policy_constraint_revision_ids = none;
  scenarios = [];
  acceptance_criteria = [];
  gherkin_text = codes "g";
  created_at = codes "2026-01-01T00:00:00Z";
  dependencies = some dependencies;
  version = none;
}

abbrev loop : List Story
loop =
    story "c" (codes "a" ∷ codes "z" ∷ [])
    ∷ story "b" (codes "a" ∷ [])
    ∷ story "a" (codes "b" ∷ [])
    ∷ []

abbrev found : List Text
found = codes "a" ∷ codes "b" ∷ codes "a" ∷ []

loop_reported :
    validate_story_dependencies compare_code_units loop
    ≡ ok (record {
      is_valid = false;
      errors = cycle found ∷ unknown_dependency (codes "c") (codes "z") ∷ [];
      missing_node_ids = codes "z" ∷ [];
      self_dependencies = [];
      cycles = found ∷ [];
    })
unfolding validate_story_dependencies detect_cycles find_cycle_for_story find_cyclic_story_ids sort
    get set has Text-discrete add_all compare_code_units create_story_id trim normalize_cycle join
    error_text any keep
loop_reported = refl
