-- ===== src/Governance/Factories/Laws.antt =====
-- What the factories of validation runs and approvals guarantee of the records they return.
use solutions_studio.Base.{
  ◌≡◌, refl, true, false, none, List, [], ◌∷◌, arith, All, length, is_empty,
}
use solutions_studio.Base.Text.{Text, is_blank, to_lower, trim-trim}
use solutions_studio.Base.Result.{traverse-All, ok, traverse}
use solutions_studio.Ids.{is_sha256, create_candidate_sha, create_validation_run_id}
use solutions_studio.Ids.Laws.{
  IsDigest, to_lower-IsDigest, IsCanonicalSha, create_candidate_sha-IsCanonicalSha,
}
use solutions_studio.Governance.Types.{
  human, ValidationArtifact, ValidationRunRecord, active, CandidateApprovalRecord,
}
use solutions_studio.Governance.Factories.{
  CreateValidationRunRecordProps, CreateCandidateApprovalRecordProps, validate_artifact,
  create_validation_run_record, create_candidate_approval_record,
}

pub record IsArtifact (a : ValidationArtifact) : Type 0 where
  pub named : is_blank a.name ≡ false
  pub typed : is_blank a.artifact_type ≡ false
  pub hashed : IsDigest a.content_hash
  pub stripped : a.content ≡ none

-- A run whose evidence can be approved.
pub record IsEvidence (run : ValidationRunRecord) : Type 0 where
  pub nonempty : is_empty run.artifacts ≡ false
  pub artifacts : All IsArtifact run.artifacts
  pub digest : IsDigest run.evidence_digest
  pub candidate : IsCanonicalSha run.candidate_sha
  pub identified : create_validation_run_id run.id ≡ ok run.id

validate_artifact-IsArtifact :
    (a b : ValidationArtifact) → validate_artifact a ≡ ok b → IsArtifact b
unfolding validate_artifact
validate_artifact-IsArtifact a b h =
    ground (arith, trim-trim a.name, trim-trim a.artifact_type, to_lower-IsDigest a.content_hash)

artifacts_lem :
    (as_ bs : List ValidationArtifact)
    → traverse validate_artifact as_ ≡ ok bs
    → All IsArtifact bs × (length bs ≡ length as_)
artifacts_lem = traverse-All validate_artifact IsArtifact validate_artifact-IsArtifact

-- What went into a run.
record RunParts (props : CreateValidationRunRecordProps) (run : ValidationRunRecord) : Type 0 where
  given : is_empty props.artifacts ≡ false
  artifacts : traverse validate_artifact props.artifacts ≡ ok run.artifacts
  digest_given : is_sha256 props.evidence_digest ≡ true
  digest : run.evidence_digest ≡ to_lower props.evidence_digest
  id : create_validation_run_id props.id ≡ ok run.id
  candidate : create_candidate_sha props.candidate_sha ≡ ok run.candidate_sha

run_parts :
    (props : CreateValidationRunRecordProps) (run : ValidationRunRecord)
    → create_validation_run_record props ≡ ok run
    → RunParts props run
unfolding create_validation_run_record
run_parts props run h = ground arith

run_id_stable :
    (t id : Text) → create_validation_run_id t ≡ ok id → create_validation_run_id id ≡ ok id
unfolding create_validation_run_id
run_id_stable t id h = ground (arith, trim-trim t)

same_emptiness :
    (as_ bs : List ValidationArtifact)
    → length bs ≡ length as_
    → is_empty as_ ≡ false
    → is_empty bs ≡ false
same_emptiness [] bs h e = cc
same_emptiness (a ∷ as_) [] h e = absurd (omega arith)
same_emptiness (a ∷ as_) (b ∷ bs) h e = refl

-- A validation run that is created has at least one artifact, as many as were given, each with a
-- name, a type and a lower-case SHA-256 but without its content, and its own digest, SHA and
-- identifier are canonical.
pub create_validation_run_record-IsEvidence :
    (props : CreateValidationRunRecordProps) (run : ValidationRunRecord)
    → create_validation_run_record props ≡ ok run
    → IsEvidence run × (length run.artifacts ≡ length props.artifacts)
create_validation_run_record-IsEvidence props run h =
    let p = run_parts props run h in
    let (all, same_length) = artifacts_lem props.artifacts run.artifacts p.artifacts in
    (
      record {
        nonempty = same_emptiness props.artifacts run.artifacts same_length p.given;
        artifacts = all;
        digest = rw p.digest (to_lower-IsDigest props.evidence_digest p.digest_given);
        candidate =
            create_candidate_sha-IsCanonicalSha props.candidate_sha run.candidate_sha p.candidate;
        identified = run_id_stable props.id run.id p.id;
      },
      same_length,
    )

-- What went into an approval.
pub record ApprovalParts (props : CreateCandidateApprovalRecordProps) (a : CandidateApprovalRecord)
    : Type 0 where
  pub human_actor : a.actor.actor_type ≡ human
  pub reasoned : is_blank a.rationale ≡ false
  pub digest_given : is_sha256 props.evidence_digest ≡ true
  pub digest : a.evidence_digest ≡ to_lower props.evidence_digest
  pub run : create_validation_run_id props.validation_run_id ≡ ok a.validation_run_id
  pub candidate : create_candidate_sha props.candidate_sha ≡ ok a.candidate_sha
  pub decision : a.decision ≡ props.decision
  pub status : a.status ≡ active

pub approval_parts :
    (props : CreateCandidateApprovalRecordProps) (a : CandidateApprovalRecord)
    → create_candidate_approval_record props ≡ ok a
    → ApprovalParts props a
unfolding create_candidate_approval_record
approval_parts props a h = ground (arith, trim-trim props.rationale)
