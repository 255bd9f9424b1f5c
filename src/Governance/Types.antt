-- ===== src/Governance/Types.antt =====
-- packages/domain/src/governance/GovernanceTypes.ts and governance/errors.ts. A union whose members
-- differ in `status` and `revocation` is one record with a field for what differs.
use solutions_studio.Base.{Bool, Option, List}
use solutions_studio.Base.Text.{Text}
use solutions_studio.Ids.{IdError}

pub data GovernanceDecision : Type 0 where
  go design_change : GovernanceDecision

pub data PromotionDisposition : Type 0 where
  approved unapproved stale_approval design_change_required : PromotionDisposition

pub data PromotionDiagnosticCode : Type 0 where
  no_validation_run empty_evidence awaiting_approval : PromotionDiagnosticCode
  candidate_sha_mismatch evidence_digest_mismatch : PromotionDiagnosticCode
  validation_run_mismatch non_human_actor approval_revoked : PromotionDiagnosticCode
  approval_superseded human_design_change_requested promotion_ready : PromotionDiagnosticCode

pub data ExecutionMode : Type 0 where
  deterministic_ci real_provider : ExecutionMode

-- The declared type of `actorType` is 'human'; the code tests it again for values that were not
-- type-checked, which `other` stands for.
pub data ActorType : Type 0 where
  human : ActorType
  other : Text → ActorType

pub record ValidationArtifact : Type 0 where
  pub name : Text
  pub artifact_type : Text
  pub content_hash : Text
  pub payload_ref : Option Text
  pub content : Option Text

-- `summary`, an arbitrary JSON object, is the text of it.
pub record ValidationRunRecord : Type 0 where
  pub id : Text
  pub candidate_sha : Text
  pub executed_at : Text
  pub executed_by : Text
  pub phase : Text
  pub execution_mode : ExecutionMode
  pub provider : Text
  pub model : Option Text
  pub artifacts : List ValidationArtifact
  pub evidence_digest : Text
  pub proposed_disposition : Option GovernanceDecision
  pub summary : Text
  pub payload_ref : Option Text

pub record ApprovalActor : Type 0 where
  pub id : Text
  pub name : Text
  pub email : Option Text
  pub actor_type : ActorType

pub record ApprovalRevocation : Type 0 where
  pub revoked_at : Text
  pub revoked_by : ApprovalActor
  pub rationale : Text

-- `status`, with the field `revocation` that only the status 'REVOKED' has.
pub data ApprovalStatus : Type 0 where
  active superseded : ApprovalStatus
  revoked : ApprovalRevocation → ApprovalStatus

pub record CandidateApprovalRecord : Type 0 where
  pub id : Text
  pub candidate_sha : Text
  pub validation_run_id : Text
  pub evidence_digest : Text
  pub decision : GovernanceDecision
  pub actor : ApprovalActor
  pub decided_at : Text
  pub rationale : Text
  pub supersedes : Option Text
  pub status : ApprovalStatus

-- The `message` is a rendering of the other fields, and is left out.
pub record CandidatePromotionStatus : Type 0 where
  pub candidate_sha : Text
  pub is_approved : Bool
  pub disposition : PromotionDisposition
  pub diagnostic_code : PromotionDiagnosticCode
  pub validation_run : Option ValidationRunRecord
  pub active_approval : Option CandidateApprovalRecord
  pub evaluated_at : Text

-- The classes of governance/errors.ts, and the plain errors of the factories, each with what its
-- message is made of.
pub data GovernanceError : Type 0 where
  human_actor_required : (actor_id : Text) → GovernanceError
  empty_validation_artifacts : GovernanceError
  invalid_approval_state : (approval_id : Text) → ApprovalStatus → GovernanceError
  artifact_name_empty artifact_type_empty : GovernanceError
  invalid_content_hash invalid_evidence_digest : Text → GovernanceError
  approval_rationale_empty revocation_rationale_empty : GovernanceError
  invalid_id : IdError → GovernanceError
