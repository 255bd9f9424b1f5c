-- ===== src/Governance/Promotion/Approvals.antt =====
-- The records of the factories under the decision on a promotion.
use solutions_studio.Base.{
  true, false, none, some, List, [], ◌≡◌, refl, ap, ◌∙◌, ◌≢◌, arith, inl, inr, Bool-cases, is_empty,
}
use solutions_studio.Base.Text.{Text, to_lower}
use solutions_studio.Base.Result.{Result, ok}
use solutions_studio.Ids.{create_candidate_sha, create_validation_run_id}
use solutions_studio.Governance.Types.{
  go, ValidationArtifact, ValidationRunRecord, CandidateApprovalRecord,
}
use solutions_studio.Governance.Factories.{
  CreateValidationRunRecordProps, CreateCandidateApprovalRecordProps, create_validation_run_record,
  create_candidate_approval_record,
}
use solutions_studio.Governance.Factories.Laws.{
  IsEvidence, create_validation_run_record-IsEvidence, ApprovalParts, approval_parts,
}
use solutions_studio.Governance.Factories.Lifecycle.{Step, Step-IsFinal}
use solutions_studio.Governance.Promotion.{EvaluatePromotionStatusProps, evaluate_promotion_status}
use solutions_studio.Governance.Promotion.Laws.{IsPromotable, evaluate_promotion_status-is_approved}

-- The question that is asked for a run and an approval of it.
abbrev pub question : ValidationRunRecord → CandidateApprovalRecord → EvaluatePromotionStatusProps
question run a = record {
  candidate_sha = run.candidate_sha;
  latest_validation_run = some run;
  active_approval = some a;
  current_evidence_digest = none;
  evaluated_at = none;
}

-- An approval that is requested for a run: its SHA, its identifier, its evidence.
pub record IsRequestFor (run : ValidationRunRecord) (props : CreateCandidateApprovalRecordProps)
    : Type 0 where
  pub candidate : props.candidate_sha ≡ run.candidate_sha
  pub run_id : props.validation_run_id ≡ run.id
  pub digest : props.evidence_digest ≡ run.evidence_digest
  pub decision : props.decision ≡ go

same_id {ℓ} :
    {E : Type 0} {A B : Type ℓ} (f : B → Result E A) {x y : B} {a b : A}
    → x ≡ y
    → f x ≡ ok a
    → f y ≡ ok b
    → a ≡ b
same_id f p e g = cc

not_nil : {as_ : List ValidationArtifact} → is_empty as_ ≡ false → as_ ≢ []
not_nil h e = cc

request-IsPromotable :
    (props : CreateCandidateApprovalRecordProps) (run : ValidationRunRecord)
    (a : CandidateApprovalRecord)
    → IsEvidence run
    → IsRequestFor run props
    → ApprovalParts props a
    → IsPromotable (question run a) run a
request-IsPromotable props run a e r p = record {
  latest = refl;
  approval = refl;
  evidence = not_nil e.nonempty;
  same_candidate =
      ap to_lower (same_id create_candidate_sha r.candidate p.candidate e.candidate.stable);
  same_evidence = ap to_lower (p.digest ∙ ap to_lower r.digest ∙ e.digest.lower);
  same_run = same_id create_validation_run_id r.run_id p.run e.identified;
  by_human = p.human_actor;
  in_force = p.status;
  decided_go = p.decision ∙ r.decision;
}

-- A created validation run with a created GO approval that was requested for its SHA, identifier and
-- evidence digest is reported as approved: nothing that the factories normalise gets in the way.
pub evaluate_promotion_status_fresh :
    (run_props : CreateValidationRunRecordProps) (props : CreateCandidateApprovalRecordProps)
    (run : ValidationRunRecord) (a : CandidateApprovalRecord) (now : Text)
    → create_validation_run_record run_props ≡ ok run
    → IsRequestFor run props
    → create_candidate_approval_record props ≡ ok a
    → (evaluate_promotion_status (question run a) now).is_approved ≡ true
evaluate_promotion_status_fresh run_props props run a now h r k =
    let (evidence, _) = create_validation_run_record-IsEvidence run_props run h in
    (evaluate_promotion_status-is_approved (question run a) now).1
      (run, a, request-IsPromotable props run a evidence r (approval_parts props a k))

-- Once an approval is revoked or superseded, no candidate is reported as approved by it.
pub evaluate_promotion_status_withdrawn :
    (props : EvaluatePromotionStatusProps) (a b : CandidateApprovalRecord) (now : Text)
    → Step a b
    → props.active_approval ≡ some b
    → (evaluate_promotion_status props now).is_approved ≡ false
evaluate_promotion_status_withdrawn props a b now s given =
    elim (Bool-cases (evaluate_promotion_status props now).is_approved) [
      | inl approved ↦
          let (run, c, m) = (evaluate_promotion_status-is_approved props now).0 approved in
          let final = Step-IsFinal s in
          absurd (ground (arith, final.not_active, m.approval, m.in_force))
      | inr refused ↦ refused
    ]
