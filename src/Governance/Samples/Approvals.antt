-- ===== src/Governance/Samples/Approvals.antt =====
-- A validation run and an approval as the factories create them, and the theorems at them.
use solutions_studio.Base.{true, false, none, ◌≡◌, refl, [], ◌∷◌, length, every}
use solutions_studio.Base.Text.{Text, codes, trim, to_lower}
use solutions_studio.Base.Result.{ok, throw}
use solutions_studio.Ids.{
  create_candidate_sha, create_validation_run_id, create_governance_approval_id, is_sha256,
  is_candidate_sha, is_hex,
}
use solutions_studio.Ids.Laws.{IsCanonicalSha, create_candidate_sha-IsCanonicalSha}
use solutions_studio.Governance.Types.{
  go, deterministic_ci, human, ValidationRunRecord, ApprovalActor, active, revoked,
  CandidateApprovalRecord, invalid_approval_state,
}
use solutions_studio.Governance.Factories.{
  CreateValidationRunRecordProps, CreateCandidateApprovalRecordProps, create_validation_run_record,
  create_candidate_approval_record, revoke_candidate_approval_record,
  supersede_candidate_approval_record,
}
use solutions_studio.Governance.Factories.Laws.{IsEvidence, create_validation_run_record-IsEvidence}
use solutions_studio.Governance.Factories.Lifecycle.{
  revoke, created, changed, History, ByHumans, IsApproval, History-IsApproval, IsFinal,
  approval_changes_once,
}
use solutions_studio.Governance.Promotion.{evaluate_promotion_status}
use solutions_studio.Governance.Promotion.Approvals.{
  question, evaluate_promotion_status_fresh, evaluate_promotion_status_withdrawn,
}

abbrev now : Text
now = codes "2026-01-01T00:00:00Z"

abbrev upper_digest : Text
upper_digest = codes "ABABABABABABABABABABABABABABABABABABABABABABABABABABABABABABABAB"

abbrev digest : Text
digest = codes "abababababababababababababababababababababababababababababababab"

sha_created : create_candidate_sha (codes " ABCDEF1 ") ≡ ok (codes "abcdef1")
unfolding create_candidate_sha trim to_lower is_candidate_sha is_hex every
sha_created = refl

create_candidate_sha-IsCanonicalSha_example : IsCanonicalSha (codes "abcdef1")
create_candidate_sha-IsCanonicalSha_example =
    create_candidate_sha-IsCanonicalSha (codes " ABCDEF1 ") (codes "abcdef1") sha_created

abbrev run_props : CreateValidationRunRecordProps
run_props = record {
  id = codes "RUN-1 ";
  candidate_sha = codes " ABCDEF1 ";
  executed_at = now;
  executed_by = codes "ci";
  phase = codes "p4";
  execution_mode = deterministic_ci;
  provider = codes "local";
  model = none;
  artifacts =
      record {
        name = codes " report";
        artifact_type = codes "json";
        content_hash = upper_digest;
        payload_ref = none;
        content = none;
      }
      ∷ [];
  evidence_digest = upper_digest;
  proposed_disposition = none;
  summary = none;
  payload_ref = none;
}

abbrev run : ValidationRunRecord
run = record {
  id = codes "RUN-1";
  candidate_sha = codes "abcdef1";
  executed_at = now;
  executed_by = codes "ci";
  phase = codes "p4";
  execution_mode = deterministic_ci;
  provider = codes "local";
  model = none;
  artifacts =
      record {
        name = codes "report";
        artifact_type = codes "json";
        content_hash = digest;
        payload_ref = none;
        content = none;
      }
      ∷ [];
  evidence_digest = digest;
  proposed_disposition = none;
  summary = codes "{}";
  payload_ref = none;
}

run_created : create_validation_run_record run_props ≡ ok run
unfolding create_validation_run_record create_candidate_sha create_validation_run_id trim to_lower
    is_candidate_sha is_sha256 is_hex every
run_created = refl

create_validation_run_record-IsEvidence_example :
    IsEvidence run × (length run.artifacts ≡ length run_props.artifacts)
create_validation_run_record-IsEvidence_example =
    create_validation_run_record-IsEvidence run_props run run_created

abbrev actor : ApprovalActor
actor = record { id = codes "ana"; name = codes "Ana"; email = none; actor_type = human }

abbrev pub props : CreateCandidateApprovalRecordProps
props = record {
  id = codes "APP-1";
  candidate_sha = codes "abcdef1";
  validation_run_id = codes "RUN-1";
  evidence_digest = digest;
  decision = go;
  actor = actor;
  decided_at = now;
  rationale = codes " good ";
  supersedes = none;
}

abbrev pub approval : CandidateApprovalRecord
approval = record {
  id = codes "APP-1";
  candidate_sha = codes "abcdef1";
  validation_run_id = codes "RUN-1";
  evidence_digest = digest;
  decision = go;
  actor = actor;
  decided_at = now;
  rationale = codes "good";
  supersedes = none;
  status = active;
}

pub approval_created : create_candidate_approval_record props ≡ ok approval
unfolding create_candidate_approval_record create_candidate_sha create_validation_run_id
    create_governance_approval_id trim to_lower is_candidate_sha is_sha256 is_hex every
approval_created = refl

evaluate_promotion_status_fresh_example :
    (evaluate_promotion_status (question run approval) now).is_approved ≡ true
evaluate_promotion_status_fresh_example =
    evaluate_promotion_status_fresh run_props props run approval now run_created
      (record { candidate = refl; run_id = refl; digest = refl; decision = refl }) approval_created

abbrev withdrawn : CandidateApprovalRecord
withdrawn = record approval {
  status = revoked (record { revoked_at = now; revoked_by = actor; rationale = codes "flawed" });
}

approval_revoked :
    revoke_candidate_approval_record approval actor (codes "flawed ") none now ≡ ok withdrawn
unfolding revoke_candidate_approval_record trim
approval_revoked = refl

abbrev history : History withdrawn
history =
    changed (created props approval_created)
      (revoke actor (codes "flawed ") none now approval_revoked)

History-IsApproval_example : ByHumans history × IsApproval withdrawn
History-IsApproval_example = History-IsApproval history

approval_changes_once_example :
    IsFinal approval withdrawn
    × (revoke_candidate_approval_record withdrawn actor (codes "again") none now
        ≡ throw (invalid_approval_state withdrawn.id withdrawn.status))
    × (supersede_candidate_approval_record withdrawn
        ≡ throw (invalid_approval_state withdrawn.id withdrawn.status))
approval_changes_once_example =
    approval_changes_once approval withdrawn actor (codes "again") none now
      (revoke actor (codes "flawed ") none now approval_revoked)

evaluate_promotion_status_withdrawn_example :
    (evaluate_promotion_status (question run withdrawn) now).is_approved ≡ false
evaluate_promotion_status_withdrawn_example =
    evaluate_promotion_status_withdrawn (question run withdrawn) approval withdrawn now
      (revoke actor (codes "flawed ") none now approval_revoked) refl
