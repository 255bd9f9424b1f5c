-- ===== src/Requirements/Revision/Laws.antt =====
-- What a requirement revision holds, and what revising it keeps or resets.
use solutions_studio.Base.{suc, ◌≤◌, ◌≡◌, ◌≢◌, true, false, none, some, arith, value_or, []}
use solutions_studio.Base.Text.{trim, is_blank, trim-trim}
use solutions_studio.Base.Numbers.{to_ℕ, to_ℕ_positive}
use solutions_studio.Base.Result.{ok}
use solutions_studio.Requirements.Types.{RequirementReviewState, unresolved, RequirementRevision}
use solutions_studio.Requirements.Revision.{
  CreateRequirementRevisionParams, RequirementChanges, is_category, is_origin, is_review_state,
  is_resolution_state, create_requirement_revision, meaning_or_provenance_changed, successor_params,
  revise_requirement,
}

-- A revision as the factories leave it.
pub record IsWellFormed (r : RequirementRevision) : Type 0 where
  pub numbered : 1 ≤ r.revision
  pub stated : is_blank r.statement ≡ false
  pub trimmed : trim r.statement ≡ r.statement
  pub category_listed : is_category r.category ≡ true
  pub origin_listed : is_origin r.origin ≡ true
  pub review_listed : is_review_state r.review_state ≡ true
  pub resolution_listed : is_resolution_state r.resolution_state ≡ true

-- The record that a successful creation returns.
pub record IsCreated (params : CreateRequirementRevisionParams) (r : RequirementRevision)
    : Type 0 where
  pub well_formed : IsWellFormed r
  pub id_kept : r.id ≡ params.id
  pub requirement_kept : r.requirement_id ≡ params.requirement_id
  pub revision_kept : r.revision ≡ to_ℕ params.revision
  pub statement_trimmed : r.statement ≡ trim params.statement
  pub category_kept : r.category ≡ params.category
  pub origin_kept : r.origin ≡ params.origin
  pub review_default : r.review_state ≡ value_or params.review_state RequirementReviewState.pending
  pub resolution_default : r.resolution_state ≡ value_or params.resolution_state unresolved
  pub evidence_default : r.evidence ≡ value_or params.evidence []
  pub actors_kept : r.affected_actors ≡ params.affected_actors
  pub dependencies_kept : r.dependencies ≡ params.dependencies
  pub supersedes_kept : r.supersedes ≡ params.supersedes

pub create_requirement_revision-IsCreated :
    (params : CreateRequirementRevisionParams) {r : RequirementRevision}
    → create_requirement_revision params ≡ ok r
    → IsCreated params r
unfolding create_requirement_revision
create_requirement_revision-IsCreated params h =
    ground (arith, trim-trim params.statement, to_ℕ_positive params.revision)

-- What revising does, whenever it succeeds.
pub record IsSuccessor (previous : RequirementRevision) (changes : RequirementChanges)
    (next : RequirementRevision) : Type 0 where
  pub well_formed : IsWellFormed next
  pub fresh : next.id ≢ previous.id
  pub same_requirement : next.requirement_id ≡ previous.requirement_id
  pub numbered : next.revision ≡ suc previous.revision
  pub linked : next.supersedes ≡ some previous.id
  pub review_reset :
      meaning_or_provenance_changed previous changes ≡ true
      → changes.review_state ≡ none
      → next.review_state ≡ RequirementReviewState.pending
  pub resolution_reset :
      meaning_or_provenance_changed previous changes ≡ true
      → changes.resolution_state ≡ none
      → next.resolution_state ≡ unresolved
  pub review_kept :
      meaning_or_provenance_changed previous changes ≡ false
      → changes.review_state ≡ none
      → next.review_state ≡ previous.review_state
  pub resolution_kept :
      meaning_or_provenance_changed previous changes ≡ false
      → changes.resolution_state ≡ none
      → next.resolution_state ≡ previous.resolution_state

-- A revision was made by the factory, under an identifier of its own.
pub revise_requirement_inv :
    (previous : RequirementRevision) (changes : RequirementChanges) {next : RequirementRevision}
    → revise_requirement previous changes ≡ ok next
    → (changes.id ≢ previous.id)
      × (create_requirement_revision (successor_params previous changes) ≡ ok next)
unfolding revise_requirement
revise_requirement_inv previous changes h = ground arith

-- The states in terms of the code's test for a change; Resets says what that test amounts to.
pub revise_requirement-IsSuccessor :
    (previous : RequirementRevision) (changes : RequirementChanges) {next : RequirementRevision}
    → revise_requirement previous changes ≡ ok next
    → IsSuccessor previous changes next
revise_requirement-IsSuccessor previous changes h =
    let (fresh, made) = revise_requirement_inv previous changes h in
    let c = create_requirement_revision-IsCreated (successor_params previous changes) made in
    record {
      well_formed = c.well_formed;
      fresh = ground arith;
      same_requirement = c.requirement_kept;
      numbered = unfold to_ℕ in c.revision_kept;
      linked = c.supersedes_kept;
      review_reset = λ changed absent. rw (c.review_default, changed, absent);
      resolution_reset = λ changed absent. rw (c.resolution_default, changed, absent);
      review_kept = λ changed absent. rw (c.review_default, changed, absent);
      resolution_kept = λ changed absent. rw (c.resolution_default, changed, absent);
    }
