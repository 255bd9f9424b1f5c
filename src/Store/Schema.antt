-- ===== src/Store/Schema.antt =====
-- `CandidateApprovalRecordDtoSchema` of packages/contracts/src/governance/schemas.ts, and the record
-- that FilesystemRequirementsRepository.ts makes again of what the schema gives. A schema is a function
-- that returns its output or throws; its list of issues is not kept. `email()` is a test of the schema
-- library, and the argument `is_email`.
use solutions_studio.Base.{Bool, not, Option, none, some, is_empty}
use solutions_studio.Base.Text.{Text, trim, is_blank}
use solutions_studio.Base.Result.{Result, ok, ◌>>=◌, ◌>>◌, throw_if}
use solutions_studio.Ids.{is_candidate_sha, is_sha256, create_actor_id}
use solutions_studio.Ids.Instant.{is_valid_instant, create_instant}
use solutions_studio.Governance.Types.{
  human, ApprovalActor, ApprovalStatus, active, superseded, revoked, CandidateApprovalRecord,
  GovernanceError,
}
use solutions_studio.Governance.Factories.{
  lift_id, is_human, create_candidate_approval_record, revoke_candidate_approval_record,
  supersede_candidate_approval_record,
}

pub data StoreError : Type 0 where
  invalid_identifier path_traversal : Text → StoreError
  schema_violation : StoreError
  immutable_record_conflict : (id : Text) → StoreError
  optimistic_concurrency_conflict : (id : Text) → StoreError
  unknown_governance_approval : (id : Text) → StoreError
  governance : GovernanceError → StoreError

-- `.optional()` around a test.
abbrev pub fails_if_given : (Text → Bool) → Option Text → Bool
fails_if_given test none = Bool.false
fails_if_given test (some t) = not (test t)

unfoldable pub parse_actor : (Text → Bool) → ApprovalActor → Result StoreError ApprovalActor
parse_actor is_email a = do
  throw_if (is_empty a.id) schema_violation
  throw_if (is_blank a.name) schema_violation
  throw_if (fails_if_given is_email a.email) schema_violation
  throw_if (not (is_human a.actor_type)) schema_violation
  ok (record { id = a.id; name = trim a.name; email = a.email; actor_type = human })

unfoldable pub parse_status : (Text → Bool) → ApprovalStatus → Result StoreError ApprovalStatus
unfolding parse_actor
parse_status is_email active = ok active
parse_status is_email superseded = ok superseded
parse_status is_email (revoked r) = do
  throw_if (not (is_valid_instant r.revoked_at)) schema_violation
  by ← parse_actor is_email r.revoked_by
  throw_if (is_blank r.rationale) schema_violation
  ok (revoked (record { revoked_at = r.revoked_at; revoked_by = by; rationale = trim r.rationale }))

-- `CandidateApprovalRecordDtoSchema.parse`.
unfoldable pub parse_approval :
    (Text → Bool) → CandidateApprovalRecord → Result StoreError CandidateApprovalRecord
unfolding parse_actor parse_status
parse_approval is_email a = do
  throw_if (is_empty a.id) schema_violation
  throw_if (not (is_candidate_sha a.candidate_sha)) schema_violation
  throw_if (is_empty a.validation_run_id) schema_violation
  throw_if (not (is_sha256 a.evidence_digest)) schema_violation
  actor ← parse_actor is_email a.actor
  throw_if (not (is_valid_instant a.decided_at)) schema_violation
  throw_if (is_blank a.rationale) schema_violation
  throw_if (fails_if_given (λ s. not (is_empty s)) a.supersedes) schema_violation
  status ← parse_status is_email a.status
  ok (record {
    id = a.id;
    candidate_sha = a.candidate_sha;
    validation_run_id = a.validation_run_id;
    evidence_digest = a.evidence_digest;
    decision = a.decision;
    actor = actor;
    decided_at = a.decided_at;
    rationale = trim a.rationale;
    supersedes = a.supersedes;
    status = status;
  })

-- The active record that `getGovernanceApproval` makes in each of its branches.
unfoldable pub recreate_active :
    CandidateApprovalRecord → Result GovernanceError CandidateApprovalRecord
recreate_active v = do
  actor_id ← lift_id (create_actor_id v.actor.id)
  decided_at ← lift_id (create_instant v.decided_at)
  create_candidate_approval_record (record {
    id = v.id;
    candidate_sha = v.candidate_sha;
    validation_run_id = v.validation_run_id;
    evidence_digest = v.evidence_digest;
    decision = v.decision;
    actor = record {
      id = actor_id;
      name = v.actor.name;
      email = v.actor.email;
      actor_type = human;
    };
    decided_at = decided_at;
    rationale = v.rationale;
    supersedes = v.supersedes;
  })

unfoldable pub recreate_status :
    ApprovalStatus → CandidateApprovalRecord → Result GovernanceError CandidateApprovalRecord
recreate_status active a = ok a
recreate_status superseded a = supersede_candidate_approval_record a
recreate_status (revoked r) a = do
  by ← lift_id (create_actor_id r.revoked_by.id)
  revoked_at ← lift_id (create_instant r.revoked_at)
  revoke_candidate_approval_record a
      (record { id = by; name = r.revoked_by.name; email = r.revoked_by.email; actor_type = human })
      r.rationale (some revoked_at) revoked_at

-- The branches of `getGovernanceApproval`, for a record that the schema gave.
unfoldable pub recreate : CandidateApprovalRecord → Result GovernanceError CandidateApprovalRecord
recreate v = do a ← recreate_active v; recreate_status v.status a
