-- ===== src/Governance/Samples.antt =====
-- A candidate with an approval, and the theorems at it.
pub mod Approvals
use solutions_studio.Base.{true, none, some, ◌≡◌, ◌↔◌, refl, [], ◌∷◌}
use solutions_studio.Base.Text.{Text, codes, to_lower, Text-discrete}
use solutions_studio.Governance.Types.{
  go, stale_approval, deterministic_ci, human, ValidationRunRecord, active, CandidateApprovalRecord,
}
use solutions_studio.Governance.Promotion.{EvaluatePromotionStatusProps, evaluate_promotion_status}
use solutions_studio.Governance.Promotion.Laws.{
  IsPromotable, IsStale, evaluate_promotion_status-is_approved, evaluate_promotion_status-IsStale,
}

abbrev now : Text
now = codes "2026-01-01T00:00:00Z"

abbrev run : ValidationRunRecord
run = record {
  id = codes "RUN-1";
  candidate_sha = codes "abcdef1";
  executed_at = now;
  executed_by = codes "ci";
  phase = codes "p4";
  execution_mode = deterministic_ci;
  provider = codes "local";
  model = none;
  artifacts =
      record {
        name = codes "report";
        artifact_type = codes "json";
        content_hash = codes "00";
        payload_ref = none;
        content = none;
      }
      ∷ [];
  evidence_digest = codes "d1";
  proposed_disposition = none;
  summary = codes "{}";
  payload_ref = none;
}

abbrev approval : CandidateApprovalRecord
approval = record {
  id = codes "APP-1";
  candidate_sha = codes "abcdef1";
  validation_run_id = codes "RUN-1";
  evidence_digest = codes "d1";
  decision = go;
  actor = record { id = codes "ana"; name = codes "Ana"; email = none; actor_type = human };
  decided_at = now;
  rationale = codes "good";
  supersedes = none;
  status = active;
}

abbrev props : EvaluatePromotionStatusProps
props = record {
  candidate_sha = codes "ABCDEF1";
  latest_validation_run = some run;
  active_approval = some approval;
  current_evidence_digest = none;
  evaluated_at = none;
}

-- The evidence has changed since.
abbrev stale_props : EvaluatePromotionStatusProps
stale_props = record props { current_evidence_digest = some (codes "d2") }

approved_example : (evaluate_promotion_status props now).is_approved ≡ true
unfolding evaluate_promotion_status to_lower Text-discrete
approved_example = refl

stale_example : (evaluate_promotion_status stale_props now).disposition ≡ stale_approval
unfolding evaluate_promotion_status to_lower Text-discrete
stale_example = refl

evaluate_promotion_status-is_approved_example :
    ((evaluate_promotion_status props now).is_approved ≡ true)
    ↔ ((r : ValidationRunRecord) × (a : CandidateApprovalRecord) × IsPromotable props r a)
evaluate_promotion_status-is_approved_example = evaluate_promotion_status-is_approved props now

evaluate_promotion_status-IsStale_example :
    ((evaluate_promotion_status stale_props now).disposition ≡ stale_approval)
    ↔ ((r : ValidationRunRecord) × (a : CandidateApprovalRecord) × IsStale stale_props r a)
evaluate_promotion_status-IsStale_example = evaluate_promotion_status-IsStale stale_props now
