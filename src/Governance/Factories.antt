-- ===== src/Governance/Factories.antt =====
-- packages/domain/src/governance/factories.ts. `Object.freeze` makes the records immutable, as all
-- values here are. `now()` is the argument `now`.
pub mod Laws
pub mod Lifecycle
use solutions_studio.Base.{
  Bool, true, false, not, Option, none, some, List, is_empty, value_or, if◌then◌else◌,
}
use solutions_studio.Base.Text.{Text, trim, is_blank, to_lower, codes}
use solutions_studio.Base.Result.{Result, ok, throw, ◌>>=◌, ◌>>◌, throw_if, traverse}
use solutions_studio.Ids.{
  IdError, is_sha256, create_candidate_sha, create_validation_run_id, create_governance_approval_id,
}
use solutions_studio.Governance.Types.{
  GovernanceDecision, ExecutionMode, ActorType, human, other, ValidationArtifact,
  ValidationRunRecord, ApprovalActor, ApprovalStatus, active, superseded, revoked,
  CandidateApprovalRecord, GovernanceError, human_actor_required, empty_validation_artifacts,
  invalid_approval_state, artifact_name_empty, artifact_type_empty, invalid_content_hash,
  invalid_evidence_digest, approval_rationale_empty, revocation_rationale_empty, invalid_id,
}

pub record CreateValidationRunRecordProps : Type 0 where
  pub id : Text
  pub candidate_sha : Text
  pub executed_at : Text
  pub executed_by : Text
  pub phase : Text
  pub execution_mode : ExecutionMode
  pub provider : Text
  pub model : Option Text
  pub artifacts : List ValidationArtifact
  pub evidence_digest : Text
  pub proposed_disposition : Option GovernanceDecision
  pub summary : Option Text
  pub payload_ref : Option Text

pub record CreateCandidateApprovalRecordProps : Type 0 where
  pub id : Text
  pub candidate_sha : Text
  pub validation_run_id : Text
  pub evidence_digest : Text
  pub decision : GovernanceDecision
  pub actor : ApprovalActor
  pub decided_at : Text
  pub rationale : Text
  pub supersedes : Option Text

-- An identifier's error passes through the factory that creates it.
abbrev pub lift_id {ℓ} : {A : Type ℓ} → Result IdError A → Result GovernanceError A
lift_id (ok a) = ok a
lift_id (throw e) = throw (invalid_id e)

abbrev pub is_human : ActorType → Bool
is_human human = true
is_human (other _) = false

abbrev pub is_active : ApprovalStatus → Bool
is_active active = true
is_active _ = false

-- `email?.trim() || undefined`.
unfoldable pub trim_email : Option Text → Option Text
trim_email none = none
trim_email (some e) = if is_blank e then none else some (trim e)

unfoldable pub trim_actor : ApprovalActor → ApprovalActor
unfolding trim_email
trim_actor a = record {
  id = a.id;
  name = trim a.name;
  email = trim_email a.email;
  actor_type = human;
}

-- The body of `props.artifacts.map`, which leaves the `content` out.
unfoldable pub validate_artifact : ValidationArtifact → Result GovernanceError ValidationArtifact
validate_artifact a = do
  throw_if (is_blank a.name) artifact_name_empty
  throw_if (is_blank a.artifact_type) artifact_type_empty
  throw_if (not (is_sha256 a.content_hash)) (invalid_content_hash a.content_hash)
  ok (record {
    name = trim a.name;
    artifact_type = trim a.artifact_type;
    content_hash = to_lower a.content_hash;
    payload_ref = a.payload_ref;
    content = none;
  })

abbrev empty_summary : Text
empty_summary = codes "{}"

unfoldable pub create_validation_run_record :
    CreateValidationRunRecordProps → Result GovernanceError ValidationRunRecord
unfolding validate_artifact
create_validation_run_record props = do
  throw_if (is_empty props.artifacts) empty_validation_artifacts
  artifacts ← traverse validate_artifact props.artifacts
  throw_if (not (is_sha256 props.evidence_digest)) (invalid_evidence_digest props.evidence_digest)
  id ← lift_id (create_validation_run_id props.id)
  sha ← lift_id (create_candidate_sha props.candidate_sha)
  ok (record {
    id = id;
    candidate_sha = sha;
    executed_at = props.executed_at;
    executed_by = props.executed_by;
    phase = props.phase;
    execution_mode = props.execution_mode;
    provider = props.provider;
    model = props.model;
    artifacts = artifacts;
    evidence_digest = to_lower props.evidence_digest;
    proposed_disposition = props.proposed_disposition;
    summary = value_or props.summary empty_summary;
    payload_ref = props.payload_ref;
  })

-- `props.supersedes ? createGovernanceApprovalId(props.supersedes) : undefined`.
unfoldable pub create_supersedes : Option Text → Result GovernanceError (Option Text)
create_supersedes none = ok none
create_supersedes (some s) =
    if is_empty s
    then ok none
    else (do id ← lift_id (create_governance_approval_id s); ok (some id))

unfoldable pub create_candidate_approval_record :
    CreateCandidateApprovalRecordProps → Result GovernanceError CandidateApprovalRecord
unfolding create_supersedes trim_actor
create_candidate_approval_record props = do
  throw_if (not (is_human props.actor.actor_type)) (human_actor_required props.actor.id)
  throw_if (is_blank props.rationale) approval_rationale_empty
  throw_if (not (is_sha256 props.evidence_digest)) (invalid_evidence_digest props.evidence_digest)
  id ← lift_id (create_governance_approval_id props.id)
  sha ← lift_id (create_candidate_sha props.candidate_sha)
  run ← lift_id (create_validation_run_id props.validation_run_id)
  supersedes ← create_supersedes props.supersedes
  ok (record {
    id = id;
    candidate_sha = sha;
    validation_run_id = run;
    evidence_digest = to_lower props.evidence_digest;
    decision = props.decision;
    actor = trim_actor props.actor;
    decided_at = props.decided_at;
    rationale = trim props.rationale;
    supersedes = supersedes;
    status = active;
  })

unfoldable pub revoke_candidate_approval_record :
    (existing : CandidateApprovalRecord) (revoked_by : ApprovalActor) (rationale : Text)
    (revoked_at : Option Text) (now : Text)
    → Result GovernanceError CandidateApprovalRecord
unfolding trim_actor
revoke_candidate_approval_record existing revoked_by rationale revoked_at now = do
  throw_if (not (is_active existing.status)) (invalid_approval_state existing.id existing.status)
  throw_if (not (is_human revoked_by.actor_type)) (human_actor_required revoked_by.id)
  throw_if (is_blank rationale) revocation_rationale_empty
  ok (record existing {
    status = revoked (record {
      revoked_at = value_or revoked_at now;
      revoked_by = trim_actor revoked_by;
      rationale = trim rationale;
    });
  })

unfoldable pub supersede_candidate_approval_record :
    CandidateApprovalRecord → Result GovernanceError CandidateApprovalRecord
supersede_candidate_approval_record existing = do
  throw_if (not (is_active existing.status)) (invalid_approval_state existing.id existing.status)
  ok (record existing { status = superseded })
