-- ===== src/Ids.antt =====
-- The identifiers of packages/domain/src/requirements/ids.ts, governance/ids.ts and backlog/ids.ts.
-- A branded string is its text. `typeof value !== 'string'` is settled by the type.
pub mod Laws
pub mod Instant
mod Samples
use solutions_studio.Base.{ℕ, Bool, ◌&&◌, ◌||◌, not, leb, every, length}
use solutions_studio.Base.Text.{Text, trim, is_blank, to_lower}
use solutions_studio.Base.Result.{Result, ok, ◌>>=◌, ◌>>◌, throw_if}

-- The name that the source passes to `assertNonEmpty`.
pub data IdKind : Type 0 where
  source source_revision requirement requirement_revision finding requirements_baseline : IdKind
  policy_constraint policy_constraint_revision engineering_decision story actor reviewer : IdKind
  instant candidate_sha validation_run governance_approval evidence_locator : IdKind
  backlog_export_mapping : IdKind

pub data IdError : Type 0 where
  empty_identifier : IdKind → IdError
  invalid_candidate_sha : Text → IdError
  invalid_instant : Text → IdError

unfoldable pub assert_non_empty : Text → IdKind → Result IdError Text
unfolding trim
assert_non_empty value name = do throw_if (is_blank value) (empty_identifier name); ok (trim value)

-- A digit or one of the letters a to f, in either case.
unfoldable pub is_hex : ℕ → Bool
is_hex c = (leb b'0' c && leb c b'9') || (leb b'a' c && leb c b'f') || (leb b'A' c && leb c b'F')

-- /^[a-f0-9]{7,64}$/i
unfoldable pub is_candidate_sha : Text → Bool
unfolding is_hex
is_candidate_sha t = leb 7 (length t) && leb (length t) 64 && every is_hex t

-- /^[a-f0-9]{64}$/i
unfoldable pub is_sha256 : Text → Bool
unfolding is_hex
is_sha256 t = leb 64 (length t) && leb (length t) 64 && every is_hex t

unfoldable pub is_valid_candidate_sha : Text → Bool
unfolding is_candidate_sha
is_valid_candidate_sha value = is_candidate_sha (trim value)

unfoldable pub create_candidate_sha : Text → Result IdError Text
unfolding assert_non_empty
create_candidate_sha value = do
  trimmed ← assert_non_empty value candidate_sha
  throw_if (not (is_candidate_sha trimmed)) (invalid_candidate_sha trimmed)
  ok (to_lower trimmed)

unfoldable pub create_validation_run_id : Text → Result IdError Text
unfolding assert_non_empty
create_validation_run_id value = assert_non_empty value validation_run

unfoldable pub create_governance_approval_id : Text → Result IdError Text
unfolding assert_non_empty
create_governance_approval_id value = assert_non_empty value governance_approval

unfoldable pub create_source_id : Text → Result IdError Text
unfolding assert_non_empty
create_source_id value = assert_non_empty value source

unfoldable pub create_source_revision_id : Text → Result IdError Text
unfolding assert_non_empty
create_source_revision_id value = assert_non_empty value source_revision

unfoldable pub create_requirement_id : Text → Result IdError Text
unfolding assert_non_empty
create_requirement_id value = assert_non_empty value requirement

unfoldable pub create_requirement_revision_id : Text → Result IdError Text
unfolding assert_non_empty
create_requirement_revision_id value = assert_non_empty value requirement_revision

unfoldable pub create_finding_id : Text → Result IdError Text
unfolding assert_non_empty
create_finding_id value = assert_non_empty value finding

unfoldable pub create_requirements_baseline_id : Text → Result IdError Text
unfolding assert_non_empty
create_requirements_baseline_id value = assert_non_empty value requirements_baseline

unfoldable pub create_policy_constraint_id : Text → Result IdError Text
unfolding assert_non_empty
create_policy_constraint_id value = assert_non_empty value policy_constraint

unfoldable pub create_policy_constraint_revision_id : Text → Result IdError Text
unfolding assert_non_empty
create_policy_constraint_revision_id value = assert_non_empty value policy_constraint_revision

unfoldable pub create_engineering_decision_id : Text → Result IdError Text
unfolding assert_non_empty
create_engineering_decision_id value = assert_non_empty value engineering_decision

unfoldable pub create_story_id : Text → Result IdError Text
unfolding assert_non_empty
create_story_id value = assert_non_empty value story

unfoldable pub create_actor_id : Text → Result IdError Text
unfolding assert_non_empty
create_actor_id value = assert_non_empty value actor

unfoldable pub create_reviewer_id : Text → Result IdError Text
unfolding assert_non_empty
create_reviewer_id value = assert_non_empty value reviewer

unfoldable pub create_backlog_export_mapping_id : Text → Result IdError Text
unfolding assert_non_empty
create_backlog_export_mapping_id value = assert_non_empty value backlog_export_mapping
