-- ===== src/Governance/Promotion/Laws.antt =====
-- When a candidate is reported as approved, and what the reported codes mean.
use solutions_studio.Base.{
  true, some, [], ◌≡◌, ◌≢◌, ◌↔◌, arith, inl, inr, ◌⊎◌, Option-cases, value_or,
}
use solutions_studio.Base.Text.{Text, to_lower}
use solutions_studio.Governance.Types.{
  human, go, stale_approval, active, ValidationRunRecord, CandidateApprovalRecord,
}
use solutions_studio.Governance.Promotion.{EvaluatePromotionStatusProps, evaluate_promotion_status}

-- What the reviewer of a release relies on: an active GO by a human, on this candidate, for the
-- latest validation run and for its evidence, which is not empty.
pub record IsPromotable (props : EvaluatePromotionStatusProps) (run : ValidationRunRecord)
    (a : CandidateApprovalRecord) : Type 0 where
  pub latest : props.latest_validation_run ≡ some run
  pub approval : props.active_approval ≡ some a
  pub evidence : run.artifacts ≢ []
  pub same_candidate : to_lower a.candidate_sha ≡ to_lower props.candidate_sha
  pub same_evidence :
      to_lower a.evidence_digest
      ≡ to_lower (value_or props.current_evidence_digest run.evidence_digest)
  pub same_run : a.validation_run_id ≡ run.id
  pub by_human : a.actor.actor_type ≡ human
  pub in_force : a.status ≡ active
  pub decided_go : a.decision ≡ go

sound :
    (props : EvaluatePromotionStatusProps) (now : Text)
    → (evaluate_promotion_status props now).is_approved ≡ true
    → (run : ValidationRunRecord) × (a : CandidateApprovalRecord) × IsPromotable props run a
unfolding evaluate_promotion_status
sound props now h = elim (Option-cases props.latest_validation_run) [
  | inl absent ↦ absurd (ground arith)
  | inr (run, latest) ↦ elim (Option-cases props.active_approval) [
    | inl absent ↦ absurd (ground arith)
    | inr (a, approval) ↦ (run, a, ground arith)
  ]
]

complete :
    (props : EvaluatePromotionStatusProps) (now : Text)
    → (run : ValidationRunRecord) × (a : CandidateApprovalRecord) × IsPromotable props run a
    → (evaluate_promotion_status props now).is_approved ≡ true
unfolding evaluate_promotion_status
complete props now (run, a, h) = ground arith

-- A candidate is reported as approved exactly when it has such a run and such an approval.
pub evaluate_promotion_status-is_approved :
    (props : EvaluatePromotionStatusProps) (now : Text)
    → ((evaluate_promotion_status props now).is_approved ≡ true)
      ↔ ((run : ValidationRunRecord) × (a : CandidateApprovalRecord) × IsPromotable props run a)
evaluate_promotion_status-is_approved props now = (sound props now, complete props now)

-- What the disposition says of an approval that is not for what is being promoted.
pub record IsStale (props : EvaluatePromotionStatusProps) (run : ValidationRunRecord)
    (a : CandidateApprovalRecord) : Type 0 where
  pub latest : props.latest_validation_run ≡ some run
  pub approval : props.active_approval ≡ some a
  pub evidence : run.artifacts ≢ []
  pub mismatch :
      (to_lower a.candidate_sha ≢ to_lower props.candidate_sha)
      ⊎ (to_lower a.evidence_digest
          ≢ to_lower (value_or props.current_evidence_digest run.evidence_digest))
      ⊎ (a.validation_run_id ≢ run.id)

IsStale-sound :
    (props : EvaluatePromotionStatusProps) (now : Text)
    → (evaluate_promotion_status props now).disposition ≡ stale_approval
    → (run : ValidationRunRecord) × (a : CandidateApprovalRecord) × IsStale props run a
unfolding evaluate_promotion_status
IsStale-sound props now h = elim (Option-cases props.latest_validation_run) [
  | inl absent ↦ absurd (ground arith)
  | inr (run, latest) ↦ elim (Option-cases props.active_approval) [
    | inl absent ↦ absurd (ground arith)
    | inr (a, approval) ↦ (run, a, ground arith)
  ]
]

IsStale-complete :
    (props : EvaluatePromotionStatusProps) (now : Text)
    → (run : ValidationRunRecord) × (a : CandidateApprovalRecord) × IsStale props run a
    → (evaluate_promotion_status props now).disposition ≡ stale_approval
unfolding evaluate_promotion_status
IsStale-complete props now (run, a, h) = ground arith

-- The disposition is STALE_APPROVAL exactly when the run has evidence and the approval differs from
-- the candidate's SHA, from the current evidence digest, or from the latest run.
pub evaluate_promotion_status-IsStale :
    (props : EvaluatePromotionStatusProps) (now : Text)
    → ((evaluate_promotion_status props now).disposition ≡ stale_approval)
      ↔ ((run : ValidationRunRecord) × (a : CandidateApprovalRecord) × IsStale props run a)
evaluate_promotion_status-IsStale props now = (IsStale-sound props now, IsStale-complete props now)
