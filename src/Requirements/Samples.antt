-- ===== src/Requirements/Samples.antt =====
-- A requirement and its revisions, and the theorems at them.
mod Chains
mod Baselines
mod Histories
use solutions_studio.Base.{
  ℕ, ◌≤◌, ◌≡◌, refl, ◌≢◌, ◌↔◌, Bool, true, false, Option, none, some, List, [], ◌∷◌, arith,
  is_empty,
}
use solutions_studio.Base.Text.{Text, codes, trim, has, Text-discrete}
use solutions_studio.Base.Numbers.{
  Number, integer, pos, is_not_positive_integer, to_ℕ, decimal, compare_code_units,
}
use solutions_studio.Base.Counts.{sort}
use solutions_studio.Base.Sets.{set_of}
use solutions_studio.Base.Result.{Result, ok}
use solutions_studio.Ids.{
  assert_non_empty, create_policy_constraint_revision_id, create_reviewer_id,
}
use solutions_studio.Requirements.Types.{
  RequirementRevision, RequirementCategory, RequirementOrigin, RequirementReviewState,
  RequirementResolutionState, PolicyConstraintState, PolicyConstraintRevision, SourceRevision,
  RequirementsBaseline, CandidateFinding, FindingType, FindingDisposition, DiscoveredBy,
  EngineeringDecision, EngineeringDecisionState,
}
use solutions_studio.Requirements.Revision.{
  CreateRequirementRevisionParams, RequirementChanges, meaning_or_provenance_changed,
  revise_requirement, create_requirement_revision, is_category, is_origin, is_review_state,
  is_resolution_state, string_arrays_equal,
}
use solutions_studio.Requirements.Revision.Resets.{IsRevision, revise_requirement-IsRevision}

-- An accepted requirement, its revision with a new rationale, and one with a new statement.
abbrev pub requirement : RequirementRevision
requirement = record {
  id = codes "REQ-1@r1";
  requirement_id = codes "REQ-1";
  revision = 1;
  statement = codes "Export is audited.";
  category = RequirementCategory.business_rule;
  origin = RequirementOrigin.explicit;
  review_state = RequirementReviewState.accepted;
  resolution_state = RequirementResolutionState.clear;
  evidence = record { source_revision_id = codes "SRC-1@r1"; locator = codes "p1" } ∷ [];
  rationale = none;
  actor_id = none;
  baseline_id = none;
  originating_projection_id = none;
  affected_actors = some (codes "auditor" ∷ codes "owner" ∷ []);
  dependencies = none;
  supersedes = none;
}

-- The same statement, and the same actors in another order.
abbrev changes : RequirementChanges
changes = record {
  id = codes "REQ-1@r2";
  statement = some (codes " Export is audited. ");
  category = none;
  origin = none;
  review_state = none;
  resolution_state = none;
  evidence = none;
  rationale = some (codes "typo");
  actor_id = none;
  baseline_id = none;
  originating_projection_id = none;
  affected_actors = some (codes "owner" ∷ codes "auditor" ∷ []);
  dependencies = none;
}

abbrev pub revision : RequirementRevision
revision = record requirement {
  id = codes "REQ-1@r2";
  revision = 2;
  rationale = some (codes "typo");
  affected_actors = some (codes "owner" ∷ codes "auditor" ∷ []);
  supersedes = some (codes "REQ-1@r1");
}

abbrev reworded : RequirementChanges
reworded = record changes { statement = some (codes "Export is signed.") }

-- What runs in the tests.
program : Unit {0}
unfolding revise_requirement create_requirement_revision meaning_or_provenance_changed Text-discrete
    trim compare_code_units to_ℕ is_not_positive_integer is_category is_origin is_review_state
    is_resolution_state string_arrays_equal sort
program = tt

revised_example : revise_requirement requirement changes ≡ ok revision
unfolding program
revised_example = refl

reworded_example :
    revise_requirement requirement reworded
    ≡ ok (record revision {
      statement = codes "Export is signed.";
      review_state = RequirementReviewState.pending;
      resolution_state = RequirementResolutionState.unresolved;
    })
unfolding program
reworded_example = refl

revise_requirement-IsRevision_example : IsRevision requirement changes revision
unfolding trim
revise_requirement-IsRevision_example =
    revise_requirement-IsRevision requirement changes refl revised_example
