-- ===== src/Stories/Coverage.antt =====
-- `computeRequirementCoverage` of packages/domain/src/requirements/StoryReadiness.ts. `now()` is the
-- argument `now`.
pub mod Naming
mod Counting
pub mod Laws
mod Samples
use Prim.Native.Nat.{Ordering}
use solutions_studio.Base.{
  ℕ, Bool, true, false, not, ◌&&◌, ◌||◌, Option, none, some, List, [], ◌∷◌, ◌++◌, map, keep, any,
  ltb, length, is_empty, value_or, if◌then◌else◌,
}
use solutions_studio.Base.Text.{Text, has}
use solutions_studio.Base.Counts.{sort}
use solutions_studio.Base.Numbers.{compare_code_units}
use solutions_studio.Requirements.Types.{RequirementsBaseline}
use solutions_studio.Stories.Types.{Story, GherkinScenario}

pub record RequirementCoverageEntry : Type 0 where
  pub requirement_revision_id : Text
  pub covering_story_ids : List Text
  pub coverage_count : ℕ

pub record BaselineRequirementCoverage : Type 0 where
  pub baseline_id : Text
  pub total_requirements : ℕ
  pub covered_count : ℕ
  pub uncovered_count : ℕ
  pub multi_covered_count : ℕ
  pub covered_requirements : List RequirementCoverageEntry
  pub uncovered_requirement_revision_ids : List Text
  pub multi_covered_requirements : List RequirementCoverageEntry
  pub is_fully_covered : Bool
  pub computed_at : Text

-- The test of the filter: the story or one of its scenarios names the revision.
unfoldable pub covers : Text → Story → Bool
covers r s =
    if has r s.requirement_revision_ids
    then true
    else any (λ (sc : GherkinScenario). has r sc.requirement_revision_ids) s.scenarios

unfoldable pub covering_story_ids : List Story → Text → List Text
unfolding covers
covering_story_ids stories r = sort compare_code_units (map (λ s. s.id) (keep (covers r) stories))

-- The three lists that the loop fills.
pub record Tally : Type 0 where
  pub covered : List RequirementCoverageEntry
  pub uncovered : List Text
  pub multi : List RequirementCoverageEntry

abbrev pub entry_of : Text → List Text → RequirementCoverageEntry
entry_of r ids = record {
  requirement_revision_id = r;
  covering_story_ids = ids;
  coverage_count = length ids;
}

unfoldable pub tally_one : List Story → Text → Tally → Tally
unfolding covering_story_ids
tally_one stories r t =
    let ids = covering_story_ids stories r in
    if is_empty ids then record t { uncovered = t.uncovered ++ r ∷ [] } else record t {
      covered = t.covered ++ entry_of r ids ∷ [];
      multi = if ltb 1 (length ids) then t.multi ++ entry_of r ids ∷ [] else t.multi;
    }

unfoldable pub tally : List Story → List Text → Tally → Tally
unfolding tally_one
tally stories [] t = t
tally stories (r ∷ rs) t = tally stories rs (tally_one stories r t)

abbrev pub nothing_tallied : Tally
nothing_tallied = record { covered = []; uncovered = []; multi = [] }

module _ (locale_compare : Text → Text → Ordering) where
  abbrev pub compare_entries : RequirementCoverageEntry → RequirementCoverageEntry → Ordering
  compare_entries a b = locale_compare a.requirement_revision_id b.requirement_revision_id

  unfoldable pub compute_requirement_coverage :
      RequirementsBaseline
      → List Story
      → (computed_at : Option Text) (now : Text) → BaselineRequirementCoverage
  unfolding tally
  compute_requirement_coverage baseline stories computed_at now =
      let t = tally stories baseline.requirement_revisions nothing_tallied in
      let covered = sort compare_entries t.covered in
      let uncovered = sort locale_compare t.uncovered in
      let multi = sort compare_entries t.multi in
      let total = length baseline.requirement_revisions in
      record {
        baseline_id = baseline.id;
        total_requirements = total;
        covered_count = length covered;
        uncovered_count = length uncovered;
        multi_covered_count = length multi;
        covered_requirements = covered;
        uncovered_requirement_revision_ids = uncovered;
        multi_covered_requirements = multi;
        is_fully_covered = ltb 0 total && is_empty uncovered;
        computed_at = value_or computed_at now;
      }
