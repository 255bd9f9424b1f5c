-- ===== src/Governance/Promotion.antt =====
-- packages/domain/src/governance/evaluatePromotionStatus.ts.
pub mod Laws
pub mod Approvals
use solutions_studio.Base.{
  Bool, true, false, not, Option, none, some, is_empty, value_or, if◌then◌else◌,
}
use solutions_studio.Base.Text.{Text, same, to_lower}
use solutions_studio.Governance.Types.{
  GovernanceDecision, go, design_change, PromotionDisposition, approved, unapproved, stale_approval,
  design_change_required, PromotionDiagnosticCode, no_validation_run, empty_evidence,
  awaiting_approval, candidate_sha_mismatch, evidence_digest_mismatch, validation_run_mismatch,
  non_human_actor, approval_revoked, approval_superseded, human_design_change_requested,
  promotion_ready, ValidationRunRecord, ApprovalStatus, active, superseded, revoked,
  CandidateApprovalRecord, CandidatePromotionStatus,
}
use solutions_studio.Governance.Factories.{is_human}

pub record EvaluatePromotionStatusProps : Type 0 where
  pub candidate_sha : Text
  pub latest_validation_run : Option ValidationRunRecord
  pub active_approval : Option CandidateApprovalRecord
  pub current_evidence_digest : Option Text
  pub evaluated_at : Option Text

module _ (props : EvaluatePromotionStatusProps) (now : Text) where
  -- The object literal that each branch returns.
  abbrev report :
      Bool
      → PromotionDisposition
      → PromotionDiagnosticCode
      → Option ValidationRunRecord
      → Option CandidateApprovalRecord
      → CandidatePromotionStatus
  report is_approved disposition code run a = record {
    candidate_sha = props.candidate_sha;
    is_approved = is_approved;
    disposition = disposition;
    diagnostic_code = code;
    validation_run = run;
    active_approval = a;
    evaluated_at = value_or props.evaluated_at now;
  }

  module _ (run : ValidationRunRecord) (a : CandidateApprovalRecord) where
    -- The checks on the life cycle and on the decision.
    check_status : ApprovalStatus → GovernanceDecision → CandidatePromotionStatus
    check_status (revoked _) decision = report false unapproved approval_revoked (some run) (some a)
    check_status superseded decision =
        report false unapproved approval_superseded (some run) (some a)
    check_status active design_change =
        report false design_change_required human_design_change_requested (some run) (some a)
    check_status active go = report true approved promotion_ready (some run) (some a)

    -- `props.currentEvidenceDigest ?? latestValidationRun.evidenceDigest`, in lower case.
    abbrev expected_digest : Text
    expected_digest = to_lower (value_or props.current_evidence_digest run.evidence_digest)

    -- The checks from the candidate's SHA on.
    check_approval : CandidatePromotionStatus
    unfolding check_status
    check_approval =
        if not (same (to_lower a.candidate_sha) (to_lower props.candidate_sha))
        then report false stale_approval candidate_sha_mismatch (some run) (some a)
        else if not (same (to_lower a.evidence_digest) expected_digest)
        then report false stale_approval evidence_digest_mismatch (some run) (some a)
        else if not (same a.validation_run_id run.id)
        then report false stale_approval validation_run_mismatch (some run) (some a)
        else if not (is_human a.actor.actor_type)
        then report false unapproved non_human_actor (some run) (some a)
        else check_status a.status a.decision

  check_evidence :
      Option ValidationRunRecord → Option CandidateApprovalRecord → CandidatePromotionStatus
  unfolding check_approval
  check_evidence none a = report false unapproved no_validation_run none none
  check_evidence (some run) none =
      if is_empty run.artifacts
      then report false unapproved empty_evidence (some run) none
      else report false unapproved awaiting_approval (some run) none
  check_evidence (some run) (some a) =
      if is_empty run.artifacts
      then report false unapproved empty_evidence (some run) none
      else check_approval run a

  unfoldable pub evaluate_promotion_status : CandidatePromotionStatus
  unfolding check_evidence
  evaluate_promotion_status = check_evidence props.latest_validation_run props.active_approval
