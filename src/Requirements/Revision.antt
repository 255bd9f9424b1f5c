-- ===== src/Requirements/Revision.antt =====
-- packages/domain/src/requirements/RequirementRevision.ts.
pub mod Laws
pub mod Meaning
pub mod Resets
use solutions_studio.Base.{
  ℕ, suc, Bool, true, false, not, ◌&&◌, ◌||◌, Option, none, some, List, [], ◌∷◌, ◌==◌, length,
  value_or, if◌then◌else◌,
}
use solutions_studio.Base.Text.{Text, Text-discrete, same, trim, is_blank}
use solutions_studio.Base.Numbers.{
  Number, integer, pos, is_not_positive_integer, to_ℕ, compare_code_units,
}
use solutions_studio.Base.Counts.{sort}
use solutions_studio.Base.Result.{Result, ok, throw, ◌>>=◌, ◌>>◌, throw_if}
use solutions_studio.Requirements.Types.{
  RequirementCategory, RequirementOrigin, RequirementReviewState, RequirementResolutionState,
  pending, unresolved, EvidenceReference, RequirementRevision, DomainError, invalid_revision_number,
  empty_statement, invalid_category, invalid_origin, invalid_review_state, invalid_resolution_state,
  same_revision_id,
}

pub record CreateRequirementRevisionParams : Type 0 where
  pub id : Text
  pub requirement_id : Text
  pub revision : Number
  pub statement : Text
  pub category : RequirementCategory
  pub origin : RequirementOrigin
  pub review_state : Option RequirementReviewState
  pub resolution_state : Option RequirementResolutionState
  pub evidence : Option (List EvidenceReference)
  pub rationale : Option Text
  pub actor_id : Option Text
  pub baseline_id : Option Text
  pub originating_projection_id : Option Text
  pub affected_actors : Option (List Text)
  pub dependencies : Option (List Text)
  pub supersedes : Option Text

pub record RequirementChanges : Type 0 where
  pub id : Text
  pub statement : Option Text
  pub category : Option RequirementCategory
  pub origin : Option RequirementOrigin
  pub review_state : Option RequirementReviewState
  pub resolution_state : Option RequirementResolutionState
  pub evidence : Option (List EvidenceReference)
  pub rationale : Option Text
  pub actor_id : Option Text
  pub baseline_id : Option Text
  pub originating_projection_id : Option Text
  pub affected_actors : Option (List Text)
  pub dependencies : Option (List Text)

-- `REQUIREMENT_CATEGORIES.includes`, and so on for the other unions.
unfoldable pub is_category : RequirementCategory → Bool
is_category (RequirementCategory.unlisted _) = false
is_category _ = true

unfoldable pub is_origin : RequirementOrigin → Bool
is_origin (RequirementOrigin.unlisted _) = false
is_origin _ = true

unfoldable pub is_review_state : RequirementReviewState → Bool
is_review_state (RequirementReviewState.unlisted _) = false
is_review_state _ = true

unfoldable pub is_resolution_state : RequirementResolutionState → Bool
is_resolution_state (RequirementResolutionState.unlisted _) = false
is_resolution_state _ = true

pub RequirementCategory-discrete : Discrete RequirementCategory
RequirementCategory-discrete = hlevel Text-discrete

pub RequirementOrigin-discrete : Discrete RequirementOrigin
RequirementOrigin-discrete = hlevel Text-discrete

unfoldable pub create_requirement_revision :
    CreateRequirementRevisionParams → Result DomainError RequirementRevision
create_requirement_revision params = do
  throw_if (is_not_positive_integer params.revision) (invalid_revision_number params.revision)
  throw_if (is_blank params.statement) empty_statement
  throw_if (not (is_category params.category)) (invalid_category params.category)
  throw_if (not (is_origin params.origin)) (invalid_origin params.origin)
  let review_state = value_or params.review_state RequirementReviewState.pending
  throw_if (not (is_review_state review_state)) (invalid_review_state review_state)
  let resolution_state = value_or params.resolution_state unresolved
  throw_if (not (is_resolution_state resolution_state)) (invalid_resolution_state resolution_state)
  ok (record {
    id = params.id;
    requirement_id = params.requirement_id;
    revision = to_ℕ params.revision;
    statement = trim params.statement;
    category = params.category;
    origin = params.origin;
    review_state = review_state;
    resolution_state = resolution_state;
    evidence = value_or params.evidence [];
    rationale = params.rationale;
    actor_id = params.actor_id;
    baseline_id = params.baseline_id;
    originating_projection_id = params.originating_projection_id;
    affected_actors = params.affected_actors;
    dependencies = params.dependencies;
    supersedes = params.supersedes;
  })

-- `xs.every((val, idx) => val === ys[idx])`.
unfoldable pub agree : List Text → List Text → Bool
agree [] ys = true
agree (x ∷ xs) [] = false
agree (x ∷ xs) (y ∷ ys) = same x y && agree xs ys

unfoldable pub string_arrays_equal : Option (List Text) → Option (List Text) → Bool
unfolding agree
string_arrays_equal none none = true
string_arrays_equal none (some b) = false
string_arrays_equal (some a) none = false
string_arrays_equal (some a) (some b) =
    if not (length a == length b)
    then false
    else agree (sort compare_code_units a) (sort compare_code_units b)

unfoldable pub evidence_agrees : List EvidenceReference → List EvidenceReference → Bool
evidence_agrees [] bs = true
evidence_agrees (a ∷ as_) [] = false
evidence_agrees (a ∷ as_) (b ∷ bs) =
    (same a.source_revision_id b.source_revision_id && same a.locator b.locator)
    && evidence_agrees as_ bs

unfoldable pub evidence_equal :
    Option (List EvidenceReference) → Option (List EvidenceReference) → Bool
unfolding evidence_agrees
evidence_equal none none = true
evidence_equal none (some b) = false
evidence_equal (some a) none = false
evidence_equal (some a) (some b) = if not (length a == length b) then false else evidence_agrees a b

-- `changes.x !== undefined && changed(changes.x)`.
abbrev pub given_and {ℓ} : {A : Type ℓ} → Option A → (A → Bool) → Bool
given_and none changed = false
given_and (some a) changed = changed a

abbrev pub category_differs : RequirementCategory → RequirementCategory → Bool
category_differs a b = elim (RequirementCategory-discrete a b) [ yes _ ↦ false | no _ ↦ true ]

abbrev pub origin_differs : RequirementOrigin → RequirementOrigin → Bool
origin_differs a b = elim (RequirementOrigin-discrete a b) [ yes _ ↦ false | no _ ↦ true ]

unfoldable pub meaning_or_provenance_changed : RequirementRevision → RequirementChanges → Bool
meaning_or_provenance_changed previous changes =
    given_and changes.statement (λ s. not (same (trim s) previous.statement))
    || given_and changes.category (λ c. category_differs c previous.category)
    || given_and changes.origin (λ o. origin_differs o previous.origin)
    || given_and changes.evidence (λ e. not (evidence_equal (some e) (some previous.evidence)))
    || given_and changes.affected_actors
        (λ a. not (string_arrays_equal (some a) previous.affected_actors))
    || given_and changes.dependencies
        (λ d. not (string_arrays_equal (some d) previous.dependencies))

-- `a ?? b`, where `b` may be undefined.
abbrev pub or_else {ℓ} : {A : Type ℓ} → Option A → Option A → Option A
or_else none b = b
or_else (some a) b = some a

-- The argument of `createRequirementRevision` in `reviseRequirement`.
abbrev pub successor_params :
    RequirementRevision → RequirementChanges → CreateRequirementRevisionParams
successor_params previous changes =
    let changed = meaning_or_provenance_changed previous changes in
    record {
      id = changes.id;
      requirement_id = previous.requirement_id;
      revision = integer (pos (suc previous.revision));
      statement = value_or changes.statement previous.statement;
      category = value_or changes.category previous.category;
      origin = value_or changes.origin previous.origin;
      review_state = some (
          value_or changes.review_state
            (if changed then RequirementReviewState.pending else previous.review_state));
      resolution_state = some (
          value_or changes.resolution_state
            (if changed then unresolved else previous.resolution_state));
      evidence = some (value_or changes.evidence previous.evidence);
      rationale = or_else changes.rationale previous.rationale;
      actor_id = or_else changes.actor_id previous.actor_id;
      baseline_id = or_else changes.baseline_id previous.baseline_id;
      originating_projection_id =
          or_else changes.originating_projection_id previous.originating_projection_id;
      affected_actors = or_else changes.affected_actors previous.affected_actors;
      dependencies = or_else changes.dependencies previous.dependencies;
      supersedes = some previous.id;
    }

unfoldable pub revise_requirement :
    RequirementRevision → RequirementChanges → Result DomainError RequirementRevision
revise_requirement previous changes = do
  throw_if (same changes.id previous.id) (same_revision_id changes.id)
  create_requirement_revision (successor_params previous changes)
