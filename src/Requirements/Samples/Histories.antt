-- ===== src/Requirements/Samples/Histories.antt =====
-- The life of a finding and of a decision, and the theorems at them.
use solutions_studio.Base.{◌≡◌, refl, none, some, [], ◌∷◌}
use solutions_studio.Base.Text.{Text, codes, trim, Text-discrete}
use solutions_studio.Base.Result.{ok}
use solutions_studio.Ids.{create_reviewer_id}
use solutions_studio.Requirements.Types.{
  CandidateFinding, FindingType, open_finding, accepted_risk, DiscoveredBy, EngineeringDecision,
  EngineeringDecisionState,
}
use solutions_studio.Requirements.Finding.{
  CreateCandidateFindingParams, create_candidate_finding, accept_risk, reopen_finding,
  is_finding_type, is_discovered_by, is_disposition, is_open, trimmed_text,
}
use solutions_studio.Requirements.Finding.Laws.{
  here, next, accept, reopen, IsAuditable, SameFinding, finding_history,
}
use solutions_studio.Requirements.Decision.{
  CreateEngineeringDecisionParams, TransitionParams, create_engineering_decision,
  transition_engineering_decision, is_decision_state, check_acceptance, is_accepted,
  EngineeringDecisionState-discrete, accepting_actor,
}
use solutions_studio.Requirements.Decision.Laws.{created, moved, IsConsistent, History-IsConsistent}

abbrev params : CreateCandidateFindingParams
params = record {
  id = codes "FIND-1";
  type = FindingType.contradiction;
  affected_requirement_revisions = some (codes "REQ-1@r1" ∷ []);
  evidence = none;
  discovered_by = DiscoveredBy.heuristic;
  disposition = none;
  rationale = none;
  actor_id = none;
  baseline_id = none;
  originating_projection_id = none;
}

abbrev finding : CandidateFinding
finding = record {
  id = codes "FIND-1";
  type = FindingType.contradiction;
  affected_requirement_revisions = codes "REQ-1@r1" ∷ [];
  evidence = [];
  discovered_by = DiscoveredBy.heuristic;
  disposition = open_finding;
  rationale = none;
  actor_id = none;
  baseline_id = none;
  originating_projection_id = none;
}

abbrev accepted : CandidateFinding
accepted = record finding { disposition = accepted_risk; rationale = some (codes "rare") }

finding_created : create_candidate_finding params ≡ ok finding
unfolding create_candidate_finding is_finding_type is_discovered_by is_disposition is_open
    trimmed_text
finding_created = refl

risk_accepted : accept_risk finding (codes " rare ") ≡ ok accepted
unfolding accept_risk trim
risk_accepted = refl

reopened : reopen_finding accepted none ≡ finding
unfolding reopen_finding
reopened = refl

finding_history_example : IsAuditable finding × SameFinding finding finding
finding_history_example =
    finding_history params finding finding finding_created
      (next (next here (accept (codes " rare ") risk_accepted)) (reopen none reopened))

abbrev decision_params : CreateEngineeringDecisionParams
decision_params = record {
  id = codes "DEC-1";
  baseline_id = codes "BASE-1";
  statement = codes "Use queues.";
  rationale = codes "Retries.";
  requirement_revision_ids = none;
  policy_constraint_revision_ids = none;
  state = none;
  created_at = none;
  created_by = codes "ana";
  accepted_by = none;
  accepted_at = none;
  supersedes = none;
  transition_rationale = none;
}

abbrev now : Text
now = codes "2026-01-01T00:00:00Z"

abbrev decision : EngineeringDecision
decision = record {
  id = codes "DEC-1";
  baseline_id = codes "BASE-1";
  statement = codes "Use queues.";
  rationale = codes "Retries.";
  requirement_revision_ids = [];
  policy_constraint_revision_ids = [];
  state = EngineeringDecisionState.proposed;
  created_at = now;
  created_by = codes "ana";
  accepted_by = none;
  accepted_at = none;
  supersedes = none;
  transition_rationale = none;
}

abbrev transition : TransitionParams
transition = record {
  new_state = EngineeringDecisionState.accepted;
  rationale = codes "agreed";
  actor_id = codes " ben ";
  transitioned_at = none;
}

abbrev accepted_decision : EngineeringDecision
accepted_decision = record decision {
  state = EngineeringDecisionState.accepted;
  accepted_by = some (codes "ben");
  accepted_at = some now;
  transition_rationale = some (codes "agreed");
}

decision_created : create_engineering_decision decision_params now ≡ ok decision
unfolding create_engineering_decision trim is_decision_state check_acceptance is_accepted
decision_created = refl

decision_accepted : transition_engineering_decision decision transition now ≡ ok accepted_decision
unfolding transition_engineering_decision create_reviewer_id trim is_decision_state is_accepted
    EngineeringDecisionState-discrete accepting_actor Text-discrete
decision_accepted = refl

History-IsConsistent_example : IsConsistent accepted_decision
History-IsConsistent_example =
    History-IsConsistent
      (moved transition now (created decision_params now decision_created) decision_accepted)
