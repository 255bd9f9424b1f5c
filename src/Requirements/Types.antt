-- ===== src/Requirements/Types.antt =====
-- The data of packages/domain/src/requirements. A constructor `unlisted` is a string outside the
-- union of an enumeration: the factories test for it at run time.
use solutions_studio.Base.{ℕ, Option, List}
use solutions_studio.Base.Text.{Text}
use solutions_studio.Base.Numbers.{Number}
use solutions_studio.Ids.{IdError}

pub data RequirementCategory : Type 0 where
  actors_permissions business_rule lifecycle_state data_constraint : RequirementCategory
  integration failure_behavior exception nfr : RequirementCategory
  unlisted : Text → RequirementCategory

pub data RequirementOrigin : Type 0 where
  explicit inferred assumed generated_proposal reviewer_proposal : RequirementOrigin
  unlisted : Text → RequirementOrigin

pub data RequirementReviewState : Type 0 where
  pending accepted rejected : RequirementReviewState
  unlisted : Text → RequirementReviewState

pub data RequirementResolutionState : Type 0 where
  clear conflicted unresolved superseded : RequirementResolutionState
  unlisted : Text → RequirementResolutionState

pub data PolicyConstraintState : Type 0 where
  pending accepted rejected : PolicyConstraintState
  unlisted : Text → PolicyConstraintState

pub data FindingType : Type 0 where
  contradiction missing_authorization incomplete_state_machine : FindingType
  missing_failure_recovery undefined_cardinality temporal_ambiguity : FindingType
  data_boundary_ambiguity unsupported_assumption subjective_normative_language : FindingType
  unlisted : Text → FindingType

pub data FindingDisposition : Type 0 where
  open_finding resolved dismissed_false_positive accepted_risk : FindingDisposition
  unlisted : Text → FindingDisposition

pub data DiscoveredBy : Type 0 where
  model heuristic artifact_validation human : DiscoveredBy
  unlisted : Text → DiscoveredBy

pub data EngineeringDecisionState : Type 0 where
  proposed accepted rejected : EngineeringDecisionState
  unlisted : Text → EngineeringDecisionState

pub record EvidenceReference : Type 0 where
  pub source_revision_id : Text
  pub locator : Text

pub record RequirementRevision : Type 0 where
  pub id : Text
  pub requirement_id : Text
  pub revision : ℕ
  pub statement : Text
  pub category : RequirementCategory
  pub origin : RequirementOrigin
  pub review_state : RequirementReviewState
  pub resolution_state : RequirementResolutionState
  pub evidence : List EvidenceReference
  pub rationale : Option Text
  pub actor_id : Option Text
  pub baseline_id : Option Text
  pub originating_projection_id : Option Text
  pub affected_actors : Option (List Text)
  pub dependencies : Option (List Text)
  pub supersedes : Option Text

pub record PolicyConstraintRevision : Type 0 where
  pub id : Text
  pub policy_constraint_id : Text
  pub revision : ℕ
  pub statement : Text
  pub authority_reference : Text
  pub state : PolicyConstraintState
  pub created_at : Text
  pub created_by : Text
  pub supersedes : Option Text

pub record SourceRevision : Type 0 where
  pub id : Text
  pub source_id : Text
  pub revision : ℕ
  pub content_hash : Text
  pub captured_at : Text
  pub verified_at : Option Text
  pub supersedes : Option Text

pub record RequirementsBaseline : Type 0 where
  pub id : Text
  pub requirement_revisions : List Text
  pub policy_constraint_revisions : List Text
  pub created_at : Text
  pub created_by : Text

pub record CandidateFinding : Type 0 where
  pub id : Text
  pub type : FindingType
  pub affected_requirement_revisions : List Text
  pub evidence : List EvidenceReference
  pub discovered_by : DiscoveredBy
  pub disposition : FindingDisposition
  pub rationale : Option Text
  pub actor_id : Option Text
  pub baseline_id : Option Text
  pub originating_projection_id : Option Text

pub record EngineeringDecision : Type 0 where
  pub id : Text
  pub baseline_id : Text
  pub statement : Text
  pub rationale : Text
  pub requirement_revision_ids : List Text
  pub policy_constraint_revision_ids : List Text
  pub state : EngineeringDecisionState
  pub created_at : Text
  pub created_by : Text
  pub accepted_by : Option Text
  pub accepted_at : Option Text
  pub supersedes : Option Text
  pub transition_rationale : Option Text

-- The reasons of a membership violation, with what the text of each is made of.
pub data ViolationReason : Type 0 where
  not_accepted : RequirementReviewState → ViolationReason
  not_clear : RequirementResolutionState → ViolationReason
  no_evidence : RequirementOrigin → ViolationReason
  duplicate_requirement : (revision previous requirement : Text) → ViolationReason
  policy_not_accepted : PolicyConstraintState → ViolationReason
  no_authority_reference : ViolationReason
  duplicate_policy_constraint : (revision previous constraint : Text) → ViolationReason

pub record BaselineMembershipViolation : Type 0 where
  pub revision_id : Text
  pub requirement_id : Text
  pub reasons : List ViolationReason

-- The classes of requirements/errors.ts; a bare `DomainError` is a constructor for its message.
pub data DomainError : Type 0 where
  invalid_id : IdError → DomainError
  invalid_revision_number : Number → DomainError
  finding_rationale_required : FindingDisposition → DomainError
  invalid_baseline_membership : List BaselineMembershipViolation → DomainError
  empty_baseline : DomainError
  empty_statement empty_content_hash empty_authority_reference : DomainError
  empty_created_by empty_rationale empty_actor_id : DomainError
  invalid_category : RequirementCategory → DomainError
  invalid_origin : RequirementOrigin → DomainError
  invalid_review_state : RequirementReviewState → DomainError
  invalid_resolution_state : RequirementResolutionState → DomainError
  invalid_policy_state : PolicyConstraintState → DomainError
  invalid_finding_type : FindingType → DomainError
  invalid_discovered_by : DiscoveredBy → DomainError
  invalid_disposition : FindingDisposition → DomainError
  invalid_decision_state : EngineeringDecisionState → DomainError
  same_revision_id : Text → DomainError
  accepted_by_missing accepted_at_missing : DomainError
  not_accepted_with_acceptance : EngineeringDecisionState → DomainError
  already_in_state : Text → EngineeringDecisionState → DomainError
  requirements_differ_from_baseline policies_differ_from_baseline : DomainError
  requirement_not_authoritative policy_not_authoritative : Text → DomainError
