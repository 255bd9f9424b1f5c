-- ===== src/Requirements/Decision/Laws.antt =====
-- An engineering decision names who accepted it and when exactly while it is ACCEPTED.
use solutions_studio.Base.{true, false, none, ◌≡◌, ◌≢◌, arith}
use solutions_studio.Base.Text.{Text}
use solutions_studio.Base.Result.{ok}
use solutions_studio.Requirements.Types.{EngineeringDecision}
use solutions_studio.Requirements.Decision.{
  CreateEngineeringDecisionParams, TransitionParams, is_decision_state, check_acceptance,
  create_engineering_decision, is_engineering_decision_authoritative, accepting_actor,
  transition_engineering_decision,
}

pub record IsConsistent (d : EngineeringDecision) : Type 0 where
  pub listed : is_decision_state d.state ≡ true
  pub accepted_by_whom : is_engineering_decision_authoritative d ≡ true → d.accepted_by ≢ none
  pub accepted_when : is_engineering_decision_authoritative d ≡ true → d.accepted_at ≢ none
  pub nobody : is_engineering_decision_authoritative d ≡ false → d.accepted_by ≡ none
  pub never : is_engineering_decision_authoritative d ≡ false → d.accepted_at ≡ none

pub create_engineering_decision-IsConsistent :
    (params : CreateEngineeringDecisionParams) (now : Text) {d : EngineeringDecision}
    → create_engineering_decision params now ≡ ok d
    → IsConsistent d
unfolding create_engineering_decision check_acceptance is_engineering_decision_authoritative
create_engineering_decision-IsConsistent params now h = ground arith

pub transition_engineering_decision-IsConsistent :
    (decision : EngineeringDecision) (params : TransitionParams) (now : Text)
    {d : EngineeringDecision}
    → transition_engineering_decision decision params now ≡ ok d
    → IsConsistent d
unfolding transition_engineering_decision accepting_actor is_engineering_decision_authoritative
transition_engineering_decision-IsConsistent decision params now h = ground arith

-- The decisions that creating one and any number of transitions lead to.
pub data History : EngineeringDecision → Type 0 where
  created :
      {d : EngineeringDecision} (params : CreateEngineeringDecisionParams) (now : Text)
      → create_engineering_decision params now ≡ ok d
      → History d
  moved :
      {d e : EngineeringDecision} (params : TransitionParams) (now : Text)
      → History d
      → transition_engineering_decision d params now ≡ ok e
      → History e

-- Through every history an ACCEPTED decision names who accepted it and when, and no other one does.
pub History-IsConsistent : {d : EngineeringDecision} → History d → IsConsistent d
History-IsConsistent (created params now e) = create_engineering_decision-IsConsistent params now e
History-IsConsistent (moved {d = d} params now h e) =
    transition_engineering_decision-IsConsistent d params now e
