-- ===== src/Requirements/Revision/Resets.antt =====
-- What a revision of a requirement resets, in terms of what the two revisions say.
use solutions_studio.Base.{
  suc, ◌≡◌, ◌≢◌, refl, sym, ◌∙◌, inl, inr, Bool, Bool-cases, true, false, not, ◌||◌, Option, none,
  some, List, [], ◌∷◌, arith, value_or,
}
use solutions_studio.Base.Text.{Text, trim, same}
use solutions_studio.Base.Counts.{sort}
use solutions_studio.Base.Numbers.{compare_code_units}
use solutions_studio.Base.Result.{ok}
use solutions_studio.Requirements.Types.{
  RequirementCategory, RequirementOrigin, EvidenceReference, RequirementReviewState, unresolved,
  RequirementRevision,
}
use solutions_studio.Requirements.Revision.{
  RequirementChanges, meaning_or_provenance_changed, successor_params, revise_requirement, agree,
  string_arrays_equal, evidence_agrees, evidence_equal, given_and, or_else, category_differs,
  origin_differs,
}
use solutions_studio.Requirements.Revision.Laws.{
  IsWellFormed, IsCreated, create_requirement_revision-IsCreated, revise_requirement_inv,
  revise_requirement-IsSuccessor,
}
use solutions_studio.Requirements.Revision.Meaning.{
  SameMeaning, IsUnchanged-parts, unchanged-SameMeaning,
}

-- Every field that is reviewed is the same.
pub record SaysTheSame (previous next : RequirementRevision) : Type 0 where
  pub statement : next.statement ≡ previous.statement
  pub category : next.category ≡ previous.category
  pub origin : next.origin ≡ previous.origin
  pub evidence : next.evidence ≡ previous.evidence
  pub actors : next.affected_actors ≡ previous.affected_actors
  pub dependencies : next.dependencies ≡ previous.dependencies

agree_refl : (xs : List Text) → agree xs xs ≡ true
unfolding agree
agree_refl [] = refl
agree_refl (x ∷ xs) = ground (arith, agree_refl xs)

evidence_agrees_refl : (xs : List EvidenceReference) → evidence_agrees xs xs ≡ true
unfolding evidence_agrees
evidence_agrees_refl [] = refl
evidence_agrees_refl (x ∷ xs) = ground (arith, evidence_agrees_refl xs)

strings_kept :
    (given previous : Option (List Text))
    → or_else given previous ≡ previous
    → given_and given (λ a. not (string_arrays_equal (some a) previous)) ≡ false
unfolding string_arrays_equal
strings_kept none previous h = refl
strings_kept (some a) previous h =
    rw (sym h) (ground (arith, agree_refl (sort compare_code_units a)))

evidence_kept :
    (given : Option (List EvidenceReference)) (previous : List EvidenceReference)
    → value_or given previous ≡ previous
    → given_and given (λ e. not (evidence_equal (some e) (some previous))) ≡ false
unfolding evidence_equal
evidence_kept none previous h = refl
evidence_kept (some e) previous h = rw (sym h) (ground (arith, evidence_agrees_refl e))

statement_kept :
    (given : Option Text) (previous : Text)
    → trim (value_or given previous) ≡ previous
    → given_and given (λ s. not (same (trim s) previous)) ≡ false
statement_kept none previous h = refl
statement_kept (some s) previous h = ground (arith, h)

category_kept :
    (given : Option RequirementCategory) (previous : RequirementCategory)
    → value_or given previous ≡ previous
    → given_and given (λ c. category_differs c previous) ≡ false
category_kept none previous h = refl
category_kept (some c) previous h = ground (arith, h)

origin_kept :
    (given : Option RequirementOrigin) (previous : RequirementOrigin)
    → value_or given previous ≡ previous
    → given_and given (λ c. origin_differs c previous) ≡ false
origin_kept none previous h = refl
origin_kept (some c) previous h = ground (arith, h)

all_false :
    (a b c d e f : Bool)
    → a ≡ false
    → b ≡ false
    → c ≡ false
    → d ≡ false
    → e ≡ false
    → f ≡ false
    → (a || b || c || d || e || f) ≡ false
all_false a b c d e f i j k l m n = ground arith

-- A successor that says the same was made by changes that the test lets pass.
unchanged_lem :
    (previous : RequirementRevision) (changes : RequirementChanges) {next : RequirementRevision}
    → IsCreated (successor_params previous changes) next
    → SaysTheSame previous next
    → meaning_or_provenance_changed previous changes ≡ false
unfolding meaning_or_provenance_changed
unchanged_lem previous changes c s =
    all_false _ _ _ _ _ _
      (statement_kept changes.statement previous.statement (sym c.statement_trimmed ∙ s.statement))
      (category_kept changes.category previous.category (sym c.category_kept ∙ s.category))
      (origin_kept changes.origin previous.origin (sym c.origin_kept ∙ s.origin))
      (evidence_kept changes.evidence previous.evidence (sym c.evidence_default ∙ s.evidence))
      (strings_kept changes.affected_actors previous.affected_actors (sym c.actors_kept ∙ s.actors))
      (strings_kept changes.dependencies previous.dependencies
        (sym c.dependencies_kept ∙ s.dependencies))

-- A state of a revision: the one that the changes give; if they give none, the first one when the
-- revisions differ in meaning and the previous one when they say the same.
pub record IsReset {S : Type 0} (previous next : RequirementRevision) (given : Option S)
    (initial before after : S) : Type 0 where
  pub given_state : (s : S) → given ≡ some s → after ≡ s
  pub reset : given ≡ none → ¬ SameMeaning previous next → after ≡ initial
  pub kept : given ≡ none → SaysTheSame previous next → after ≡ before

pub record IsRevision (previous : RequirementRevision) (changes : RequirementChanges)
    (next : RequirementRevision) : Type 0 where
  pub well_formed : IsWellFormed next
  pub fresh : next.id ≢ previous.id
  pub same_requirement : next.requirement_id ≡ previous.requirement_id
  pub numbered : next.revision ≡ suc previous.revision
  pub linked : next.supersedes ≡ some previous.id
  pub review :
      IsReset previous next changes.review_state RequirementReviewState.pending
        previous.review_state next.review_state
  pub resolution :
      IsReset previous next changes.resolution_state unresolved previous.resolution_state
        next.resolution_state

-- What revising a trimmed requirement returns, when it does, is a well-formed revision of the same
-- requirement, under a new identifier and the next number, that supersedes the previous one. Its review
-- and resolution states are those that the changes give; where they give none, they are PENDING and
-- UNRESOLVED if the two revisions differ in statement, category, origin, evidence, or in the multiset of
-- actors or dependencies, and those of the previous revision if all of these are equal.
pub revise_requirement-IsRevision :
    (previous : RequirementRevision) (changes : RequirementChanges) {next : RequirementRevision}
    → trim previous.statement ≡ previous.statement
    → revise_requirement previous changes ≡ ok next
    → IsRevision previous changes next
revise_requirement-IsRevision previous changes {next} t h =
    let (fresh, made) = revise_requirement_inv previous changes h in
    let c = create_requirement_revision-IsCreated (successor_params previous changes) made in
    let s = revise_requirement-IsSuccessor previous changes h in
    let differs : ¬ SameMeaning previous next
        → meaning_or_provenance_changed previous changes ≡ true =
      λ n. elim (Bool-cases (meaning_or_provenance_changed previous changes)) [
        | inl changed ↦ changed
        | inr unchanged ↦ absurd (
            n (
              unchanged-SameMeaning previous changes t
                (IsUnchanged-parts previous changes unchanged) c))
      ] in
    record {
      well_formed = s.well_formed;
      fresh = s.fresh;
      same_requirement = s.same_requirement;
      numbered = s.numbered;
      linked = s.linked;
      review = record {
        given_state = λ x e. rw (c.review_default, e);
        reset = λ e n. s.review_reset (differs n) e;
        kept = λ e same_all. s.review_kept (unchanged_lem previous changes c same_all) e;
      };
      resolution = record {
        given_state = λ x e. rw (c.resolution_default, e);
        reset = λ e n. s.resolution_reset (differs n) e;
        kept = λ e same_all. s.resolution_kept (unchanged_lem previous changes c same_all) e;
      };
    }
