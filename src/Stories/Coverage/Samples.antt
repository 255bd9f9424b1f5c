-- ===== src/Stories/Coverage/Samples.antt =====
-- A baseline with two requirements, one of them covered by a scenario, and the theorems at it.
use solutions_studio.Base.{◌≡◌, refl, ◌↔◌, true, false, none, [], ◌∷◌, All, is_empty, any, keep}
use solutions_studio.Base.Text.{Text, codes, has, Text-discrete}
use solutions_studio.Base.Counts.{sort}
use solutions_studio.Base.Numbers.{compare_code_units}
use solutions_studio.Requirements.Types.{RequirementsBaseline}
use solutions_studio.Stories.Types.{Story, GherkinScenario}
use solutions_studio.Stories.Coverage.{
  BaselineRequirementCoverage, compute_requirement_coverage, covers,
}
use solutions_studio.Stories.Coverage.Laws.{
  IsCovered, IsPartition, compute_requirement_coverage-IsPartition,
  compute_requirement_coverage_is_fully_covered,
}

abbrev now : Text
now = codes "2026-01-01T00:00:00Z"

abbrev baseline : RequirementsBaseline
baseline = record {
  id = codes "BASE-1";
  requirement_revisions = codes "REQ-1@r1" ∷ codes "REQ-2@r1" ∷ [];
  policy_constraint_revisions = [];
  created_at = now;
  created_by = codes "ana";
}

abbrev scenario : GherkinScenario
scenario = record {
  id = none;
  title = codes "s";
  requirement_revision_ids = codes "REQ-2@r1" ∷ [];
  policy_constraint_revision_ids = none;
  steps = [];
  raw_text = none;
}

abbrev story : Story
story = record {
  id = codes "ST-1";
  baseline_id = codes "BASE-1";
  title = codes "t";
  narrative = record {
    role = codes "r";
    feature = codes "f";
    benefit = codes "b";
    raw_text = none;
  };
  requirement_revision_ids = [];
  policy_constraint_revision_ids = none;
  scenarios = scenario ∷ [];
  acceptance_criteria = [];
  gherkin_text = codes "g";
  created_at = now;
  dependencies = none;
  version = none;
}

abbrev coverage : BaselineRequirementCoverage
coverage = compute_requirement_coverage compare_code_units baseline (story ∷ []) none now

uncovered_test : coverage.uncovered_requirement_revision_ids ≡ codes "REQ-1@r1" ∷ []
unfolding compute_requirement_coverage covers Text-discrete sort has any keep
uncovered_test = refl

compute_requirement_coverage-IsPartition_example : IsPartition baseline (story ∷ []) coverage
compute_requirement_coverage-IsPartition_example =
    compute_requirement_coverage-IsPartition compare_code_units baseline (story ∷ []) none now

compute_requirement_coverage_is_fully_covered_example : (coverage.is_fully_covered ≡ true) ↔ (
    (is_empty baseline.requirement_revisions ≡ false)
    × All (IsCovered (story ∷ [])) baseline.requirement_revisions)
compute_requirement_coverage_is_fully_covered_example =
    compute_requirement_coverage_is_fully_covered compare_code_units baseline (story ∷ []) none now
