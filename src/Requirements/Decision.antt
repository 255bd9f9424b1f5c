-- ===== src/Requirements/Decision.antt =====
-- packages/domain/src/requirements/EngineeringDecision.ts. `now()` is the argument `now`.
pub mod Laws
use solutions_studio.Base.{
  Bool, true, false, not, ◌||◌, Option, none, some, List, [], value_or, if◌then◌else◌,
}
use solutions_studio.Base.Text.{Text, Text-discrete, trim, is_blank, is_truthy}
use solutions_studio.Base.Result.{Result, ok, throw, ◌>>=◌, ◌>>◌, throw_if}
use solutions_studio.Ids.{create_reviewer_id}
use solutions_studio.Requirements.Types.{
  EngineeringDecisionState, proposed, EngineeringDecision, DomainError, empty_statement,
  empty_rationale, empty_created_by, empty_actor_id, invalid_decision_state, accepted_by_missing,
  accepted_at_missing, not_accepted_with_acceptance, already_in_state,
}
use solutions_studio.Requirements.Policy.{lift_id}

pub record CreateEngineeringDecisionParams : Type 0 where
  pub id : Text
  pub baseline_id : Text
  pub statement : Text
  pub rationale : Text
  pub requirement_revision_ids : Option (List Text)
  pub policy_constraint_revision_ids : Option (List Text)
  pub state : Option EngineeringDecisionState
  pub created_at : Option Text
  pub created_by : Text
  pub accepted_by : Option Text
  pub accepted_at : Option Text
  pub supersedes : Option Text
  pub transition_rationale : Option Text

pub record TransitionParams : Type 0 where
  pub new_state : EngineeringDecisionState
  pub rationale : Text
  pub actor_id : Text
  pub transitioned_at : Option Text

unfoldable pub is_decision_state : EngineeringDecisionState → Bool
is_decision_state (EngineeringDecisionState.unlisted _) = false
is_decision_state _ = true

unfoldable pub is_accepted : EngineeringDecisionState → Bool
is_accepted EngineeringDecisionState.accepted = true
is_accepted _ = false

unfoldable pub EngineeringDecisionState-discrete : Discrete EngineeringDecisionState
EngineeringDecisionState-discrete = hlevel Text-discrete

abbrev pub same_state : EngineeringDecisionState → EngineeringDecisionState → Bool
same_state a b = elim (EngineeringDecisionState-discrete a b) [ yes _ ↦ true | no _ ↦ false ]

abbrev pub is_given : Option Text → Bool
is_given none = false
is_given (some t) = true

abbrev pub map_trim : Option Text → Option Text
map_trim none = none
map_trim (some t) = some (trim t)

-- The rules on `acceptedBy` and `acceptedAt`.
unfoldable pub check_acceptance :
    EngineeringDecisionState → Option Text → Option Text → Result DomainError (Unit {0})
check_acceptance state accepted_by accepted_at =
    if is_accepted state
    then (throw_if (not (is_truthy accepted_by)) accepted_by_missing
        >> throw_if (not (is_truthy accepted_at)) accepted_at_missing)
    else throw_if (is_given accepted_by || is_given accepted_at)
        (not_accepted_with_acceptance state)

unfoldable pub create_engineering_decision :
    CreateEngineeringDecisionParams → (now : Text) → Result DomainError EngineeringDecision
create_engineering_decision params now = do
  throw_if (is_blank params.statement) empty_statement
  throw_if (is_blank params.rationale) empty_rationale
  throw_if (is_blank params.created_by) empty_created_by
  let state = value_or params.state proposed
  throw_if (not (is_decision_state state)) (invalid_decision_state state)
  check_acceptance state params.accepted_by params.accepted_at
  ok (record {
    id = params.id;
    baseline_id = params.baseline_id;
    statement = trim params.statement;
    rationale = trim params.rationale;
    requirement_revision_ids = value_or params.requirement_revision_ids [];
    policy_constraint_revision_ids = value_or params.policy_constraint_revision_ids [];
    state = state;
    created_at = value_or params.created_at now;
    created_by = trim params.created_by;
    accepted_by = params.accepted_by;
    accepted_at = params.accepted_at;
    supersedes = params.supersedes;
    transition_rationale = map_trim params.transition_rationale;
  })

unfoldable pub is_engineering_decision_authoritative : EngineeringDecision → Bool
unfolding is_accepted
is_engineering_decision_authoritative decision = is_accepted decision.state

-- `params.newState === 'ACCEPTED' ? createReviewerId(params.actorId) : undefined`.
unfoldable pub accepting_actor : EngineeringDecisionState → Text → Result DomainError (Option Text)
accepting_actor state actor =
    if is_accepted state
    then (do id ← lift_id (create_reviewer_id actor); ok (some id))
    else ok none

unfoldable pub transition_engineering_decision :
    EngineeringDecision → TransitionParams → (now : Text) → Result DomainError EngineeringDecision
transition_engineering_decision decision params now = do
  throw_if (not (is_decision_state params.new_state)) (invalid_decision_state params.new_state)
  throw_if (same_state decision.state params.new_state)
      (already_in_state decision.id params.new_state)
  throw_if (is_blank params.rationale) empty_rationale
  throw_if (is_blank params.actor_id) empty_actor_id
  accepted_by ← accepting_actor params.new_state params.actor_id
  ok (record decision {
    state = params.new_state;
    transition_rationale = some (trim params.rationale);
    accepted_by = accepted_by;
    accepted_at =
        if is_accepted params.new_state then some (value_or params.transitioned_at now) else none;
  })
