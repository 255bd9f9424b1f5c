-- ===== src/Requirements/Baseline.antt =====
-- packages/domain/src/requirements/RequirementsBaseline.ts. `now()` is the argument `now`.
mod Membership
pub mod Laws
use solutions_studio.Base.{
  ℕ, Bool, true, false, not, ◌&&◌, ◌||◌, Option, none, some, List, [], ◌∷◌, ◌++◌, map, is_empty,
  value_or, if◌then◌else◌,
}
use solutions_studio.Base.Text.{Text, is_blank, is_truthy}
use solutions_studio.Base.Maps.{Map, get, set}
use solutions_studio.Base.Result.{Result, ok, throw, ◌>>=◌, ◌>>◌, throw_if}
use solutions_studio.Requirements.Types.{
  RequirementOrigin, explicit, inferred, RequirementReviewState, RequirementResolutionState, clear,
  PolicyConstraintState, RequirementRevision, PolicyConstraintRevision, RequirementsBaseline,
  ViolationReason, not_accepted, not_clear, no_evidence, duplicate_requirement, policy_not_accepted,
  no_authority_reference, duplicate_policy_constraint, BaselineMembershipViolation, DomainError,
  invalid_baseline_membership, empty_baseline,
}

-- `reviewState === 'ACCEPTED'`, and so on.
unfoldable pub is_accepted : RequirementReviewState → Bool
is_accepted RequirementReviewState.accepted = true
is_accepted _ = false

unfoldable pub is_clear : RequirementResolutionState → Bool
is_clear clear = true
is_clear _ = false

unfoldable pub is_policy_accepted : PolicyConstraintState → Bool
is_policy_accepted PolicyConstraintState.accepted = true
is_policy_accepted _ = false

-- The origins whose requirements must have evidence.
unfoldable pub needs_evidence : RequirementOrigin → Bool
needs_evidence explicit = true
needs_evidence inferred = true
needs_evidence _ = false

-- `if (test) reasons.push(reason)`.
abbrev pub push_if : Bool → ViolationReason → List ViolationReason
push_if true r = r ∷ []
push_if false r = []

-- The revision seen before for the same requirement, if the code takes it for one.
abbrev pub seen_text : Option Text → Text
seen_text none = []
seen_text (some t) = t

unfoldable pub reasons_of : Map Text → RequirementRevision → List ViolationReason
reasons_of seen c =
    push_if (not (is_accepted c.review_state)) (not_accepted c.review_state)
    ++ (push_if (not (is_clear c.resolution_state)) (not_clear c.resolution_state)
        ++ (push_if (needs_evidence c.origin && is_empty c.evidence) (no_evidence c.origin)
            ++ push_if (is_truthy (get c.requirement_id seen)) (
                duplicate_requirement c.id (seen_text (get c.requirement_id seen))
                  c.requirement_id)))

abbrev pub note_seen : Text → Text → Map Text → Map Text
note_seen key id seen = if is_truthy (get key seen) then seen else set key id seen

-- The loop of `validateBaselineMembership`, with the map of what was seen.
unfoldable pub membership_violations :
    Map Text → List RequirementRevision → List BaselineMembershipViolation
membership_violations seen [] = []
membership_violations seen (c ∷ cs) =
    let reasons = reasons_of seen c in
    let rest = membership_violations (note_seen c.requirement_id c.id seen) cs in
    if is_empty reasons
    then rest
    else record { revision_id = c.id; requirement_id = c.requirement_id; reasons = reasons } ∷ rest

unfoldable pub validate_baseline_membership :
    List RequirementRevision → List BaselineMembershipViolation
unfolding membership_violations
validate_baseline_membership candidates = membership_violations [] candidates

unfoldable pub policy_reasons_of : Map Text → PolicyConstraintRevision → List ViolationReason
policy_reasons_of seen c =
    push_if (not (is_policy_accepted c.state)) (policy_not_accepted c.state)
    ++ (push_if (is_blank c.authority_reference) no_authority_reference
        ++ push_if (is_truthy (get c.policy_constraint_id seen)) (
            duplicate_policy_constraint c.id (seen_text (get c.policy_constraint_id seen))
              c.policy_constraint_id))

unfoldable pub policy_violations :
    Map Text → List PolicyConstraintRevision → List BaselineMembershipViolation
policy_violations seen [] = []
policy_violations seen (c ∷ cs) =
    let reasons = policy_reasons_of seen c in
    let rest = policy_violations (note_seen c.policy_constraint_id c.id seen) cs in
    if is_empty reasons
    then rest
    else record { revision_id = c.id; requirement_id = c.policy_constraint_id; reasons = reasons }
      ∷ rest

unfoldable pub validate_policy_constraint_baseline_membership :
    List PolicyConstraintRevision → List BaselineMembershipViolation
unfolding policy_violations
validate_policy_constraint_baseline_membership candidates = policy_violations [] candidates

pub record CreateRequirementsBaselineParams : Type 0 where
  pub id : Text
  pub requirements : List RequirementRevision
  pub policy_constraints : Option (List PolicyConstraintRevision)
  pub created_at : Option Text
  pub created_by : Text

unfoldable pub policy_violations_of :
    Option (List PolicyConstraintRevision) → List BaselineMembershipViolation
policy_violations_of none = []
policy_violations_of (some ps) = validate_policy_constraint_baseline_membership ps

-- The object that `createRequirementsBaseline` returns.
abbrev pub baseline_of : CreateRequirementsBaselineParams → (now : Text) → RequirementsBaseline
baseline_of params now = record {
  id = params.id;
  requirement_revisions = map (λ r. r.id) params.requirements;
  policy_constraint_revisions = map (λ p. p.id) (value_or params.policy_constraints []);
  created_at = value_or params.created_at now;
  created_by = params.created_by;
}

unfoldable pub create_requirements_baseline :
    CreateRequirementsBaselineParams → (now : Text) → Result DomainError RequirementsBaseline
create_requirements_baseline params now = do
  throw_if (is_empty params.requirements) empty_baseline
  let violations =
      validate_baseline_membership params.requirements
      ++ policy_violations_of params.policy_constraints
  throw_if (not (is_empty violations)) (invalid_baseline_membership violations)
  ok (baseline_of params now)
