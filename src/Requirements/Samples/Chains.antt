-- ===== src/Requirements/Samples/Chains.antt =====
-- A policy constraint and a source, revised, and the theorems at them.
use solutions_studio.Base.{◌+◌, ◌≡◌, refl, none, some}
use solutions_studio.Base.Text.{Text, codes, trim, Text-discrete}
use solutions_studio.Base.Numbers.{is_not_positive_integer, to_ℕ, decimal}
use solutions_studio.Base.Result.{ok}
use solutions_studio.Ids.{create_policy_constraint_revision_id}
use solutions_studio.Requirements.Types.{
  PolicyConstraintState, PolicyConstraintRevision, SourceRevision,
}
use solutions_studio.Requirements.Policy.{
  PolicyConstraintChanges, create_policy_constraint_revision, revise_policy_constraint,
  is_policy_state, policy_revision_id,
}
use solutions_studio.Requirements.Policy.Laws.{IsSuccessor, revise_policy_constraint-IsSuccessor}
use solutions_studio.Requirements.Source.{SourceChanges, create_source_revision, revise_source}
use solutions_studio.Requirements.Source.Laws.{start, revised, Chain-numbered}

abbrev instant : Text
instant = codes "2026-01-01T00:00:00Z"

abbrev policy : PolicyConstraintRevision
policy = record {
  id = codes "POL-1@r1";
  policy_constraint_id = codes "POL-1";
  revision = 1;
  statement = codes "Exports stay in the EU.";
  authority_reference = codes "GDPR 44";
  state = PolicyConstraintState.accepted;
  created_at = instant;
  created_by = codes "ana";
  supersedes = none;
}

abbrev policy_changes : PolicyConstraintChanges
policy_changes = record {
  statement = none;
  authority_reference = some (codes " GDPR 45 ");
  state = some PolicyConstraintState.pending;
  created_by = codes "ben";
  created_at = none;
}

abbrev revised_policy : PolicyConstraintRevision
revised_policy = record policy {
  id = codes "POL-1@r2";
  revision = 2;
  authority_reference = codes "GDPR 45";
  state = PolicyConstraintState.pending;
  created_by = codes "ben";
  supersedes = some (codes "POL-1@r1");
}

policy_revised : revise_policy_constraint policy policy_changes instant ≡ ok revised_policy
unfolding revise_policy_constraint create_policy_constraint_revision is_policy_state
    policy_revision_id create_policy_constraint_revision_id decimal trim is_not_positive_integer
    to_ℕ
policy_revised = refl

revise_policy_constraint-IsSuccessor_example : IsSuccessor policy policy_changes revised_policy
revise_policy_constraint-IsSuccessor_example =
    revise_policy_constraint-IsSuccessor policy policy_changes instant policy_revised

abbrev source : SourceRevision
source = record {
  id = codes "SRC-1@r1";
  source_id = codes "SRC-1";
  revision = 1;
  content_hash = codes "aa";
  captured_at = instant;
  verified_at = none;
  supersedes = none;
}

abbrev source_changes : SourceChanges
source_changes = record {
  id = codes "SRC-1@r2";
  content_hash = codes "bb";
  captured_at = none;
  verified_at = none;
}

abbrev revised_source : SourceRevision
revised_source = record source {
  id = codes "SRC-1@r2";
  revision = 2;
  content_hash = codes "bb";
  supersedes = some (codes "SRC-1@r1");
}

source_revised : revise_source source source_changes instant ≡ ok revised_source
unfolding revise_source create_source_revision Text-discrete trim is_not_positive_integer to_ℕ
source_revised = refl

Chain-numbered_example :
    (revised_source.source_id ≡ source.source_id) × (revised_source.revision ≡ source.revision + 1)
Chain-numbered_example = Chain-numbered (revised source_changes instant start source_revised)
