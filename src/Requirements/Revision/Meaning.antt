-- ===== src/Requirements/Revision/Meaning.antt =====
-- When a revision may keep its review: what a change of meaning or provenance is.
use solutions_studio.Base.{
  ◌≡◌, refl, Bool, true, false, ◌||◌, Option, none, some, arith, value_or, List, [], ◌∷◌, length,
  not, ap, ◌∙◌, sym,
}
use solutions_studio.Base.Text.{Text, trim, same}
use solutions_studio.Base.Counts.{count, count-sort, length-sort, sort}
use solutions_studio.Base.Numbers.{compare_code_units}
use solutions_studio.Requirements.Types.{
  RequirementCategory, RequirementOrigin, EvidenceReference, RequirementRevision,
}
use solutions_studio.Requirements.Revision.{
  RequirementChanges, meaning_or_provenance_changed, successor_params, agree, string_arrays_equal,
  evidence_agrees, evidence_equal,
}
use solutions_studio.Requirements.Revision.{given_and, or_else, category_differs, origin_differs}
use solutions_studio.Requirements.Revision.Laws.{IsCreated}

evidence_agrees-eq :
    (as_ bs : List EvidenceReference)
    → length as_ ≡ length bs
    → evidence_agrees as_ bs ≡ true
    → as_ ≡ bs
unfolding evidence_agrees
evidence_agrees-eq [] [] l h = refl
evidence_agrees-eq [] (b ∷ bs) l h = absurd (omega arith)
evidence_agrees-eq (a ∷ as_) [] l h = absurd (omega arith)
evidence_agrees-eq (a ∷ as_) (b ∷ bs) l h = ground (arith, evidence_agrees-eq as_ bs)

evidence_equal-eq : (a b : List EvidenceReference) → evidence_equal (some a) (some b) ≡ true → a ≡ b
unfolding evidence_equal
evidence_equal-eq a b h = ground (arith, evidence_agrees-eq a b)

agree-eq : (xs ys : List Text) → length xs ≡ length ys → agree xs ys ≡ true → xs ≡ ys
unfolding agree
agree-eq [] [] l h = refl
agree-eq [] (y ∷ ys) l h = absurd (omega arith)
agree-eq (x ∷ xs) [] l h = absurd (omega arith)
agree-eq (x ∷ xs) (y ∷ ys) l h = ground (arith, agree-eq xs ys)

pub string_arrays_equal-count :
    (a b : List Text) (u : Text)
    → string_arrays_equal (some a) (some b) ≡ true
    → count u a ≡ count u b
unfolding string_arrays_equal
string_arrays_equal-count a b u h =
    let same_length : length a ≡ length b = ground arith in
    let sorted =
      agree-eq (sort compare_code_units a) (sort compare_code_units b)
        (omega (arith, length-sort compare_code_units a, length-sort compare_code_units b))
        (ground arith) in
    sym (count-sort compare_code_units u a)
    ∙ (ap (count u) sorted ∙ count-sort compare_code_units u b)

-- Both lists are absent, or they hold the same strings, as often.
abbrev pub SameStrings : Option (List Text) → Option (List Text) → Type 0
SameStrings none none = Unit
SameStrings none (some b) = ⊥
SameStrings (some a) none = ⊥
SameStrings (some a) (some b) = (u : Text) → count u a ≡ count u b

SameStrings_lem : (a b : Option (List Text)) → string_arrays_equal a b ≡ true → SameStrings a b
unfolding string_arrays_equal
SameStrings_lem none none h = tt
SameStrings_lem none (some b) h = cc
SameStrings_lem (some a) none h = cc
SameStrings_lem (some a) (some b) h = λ u. string_arrays_equal-count a b u h

SameStrings-refl : (a : Option (List Text)) → SameStrings a a
SameStrings-refl none = tt
SameStrings-refl (some a) = λ u. refl

-- The strings of a list that is changed only if it differs.
kept_strings :
    (given previous : Option (List Text))
    → given_and given (λ a. not (string_arrays_equal (some a) previous)) ≡ false
    → SameStrings (or_else given previous) previous
kept_strings none previous h = SameStrings-refl previous
kept_strings (some a) previous h = SameStrings_lem (some a) previous (ground arith)

kept_evidence :
    (given : Option (List EvidenceReference)) (previous : List EvidenceReference)
    → given_and given (λ e. not (evidence_equal (some e) (some previous))) ≡ false
    → value_or given previous ≡ previous
kept_evidence none previous h = refl
kept_evidence (some e) previous h = evidence_equal-eq e previous (ground arith)

kept_statement :
    (given : Option Text) (previous : Text)
    → trim previous ≡ previous
    → given_and given (λ s. not (same (trim s) previous)) ≡ false
    → trim (value_or given previous) ≡ previous
kept_statement none previous t h = t
kept_statement (some s) previous t h = ground arith

-- Nothing that is reviewed differs.
pub record SameMeaning (previous next : RequirementRevision) : Type 0 where
  pub statement : next.statement ≡ previous.statement
  pub category : next.category ≡ previous.category
  pub origin : next.origin ≡ previous.origin
  pub evidence : next.evidence ≡ previous.evidence
  pub actors : SameStrings next.affected_actors previous.affected_actors
  pub dependencies : SameStrings next.dependencies previous.dependencies

pub record IsUnchanged (previous : RequirementRevision) (changes : RequirementChanges)
    : Type 0 where
  statement : given_and changes.statement (λ s. not (same (trim s) previous.statement)) ≡ false
  category : given_and changes.category (λ c. category_differs c previous.category) ≡ false
  origin : given_and changes.origin (λ o. origin_differs o previous.origin) ≡ false
  evidence :
      given_and changes.evidence (λ e. not (evidence_equal (some e) (some previous.evidence)))
      ≡ false
  actors :
      given_and changes.affected_actors
        (λ a. not (string_arrays_equal (some a) previous.affected_actors))
      ≡ false
  dependencies :
      given_and changes.dependencies (λ d. not (string_arrays_equal (some d) previous.dependencies))
      ≡ false

or_false_parts :
    (a b c d e f : Bool)
    → (a || b || c || d || e || f) ≡ false
    → (a ≡ false) × (b ≡ false) × (c ≡ false) × (d ≡ false) × (e ≡ false) × (f ≡ false)
or_false_parts a b c d e f h = ground arith

pub IsUnchanged-parts :
    (previous : RequirementRevision) (changes : RequirementChanges)
    → meaning_or_provenance_changed previous changes ≡ false
    → IsUnchanged previous changes
unfolding meaning_or_provenance_changed
IsUnchanged-parts previous changes h =
    let (s, c, o, e, a, d) = or_false_parts _ _ _ _ _ _ h in
    record { statement = s; category = c; origin = o; evidence = e; actors = a; dependencies = d }

kept_category :
    (given : Option RequirementCategory) (previous : RequirementCategory)
    → given_and given (λ c. category_differs c previous) ≡ false
    → value_or given previous ≡ previous
kept_category none previous h = refl
kept_category (some c) previous h = ground arith

kept_origin :
    (given : Option RequirementOrigin) (previous : RequirementOrigin)
    → given_and given (λ c. origin_differs c previous) ≡ false
    → value_or given previous ≡ previous
kept_origin none previous h = refl
kept_origin (some c) previous h = ground arith

pub unchanged-SameMeaning :
    (previous : RequirementRevision) (changes : RequirementChanges) {next : RequirementRevision}
    → trim previous.statement ≡ previous.statement
    → IsUnchanged previous changes
    → IsCreated (successor_params previous changes) next
    → SameMeaning previous next
unchanged-SameMeaning previous changes t u c = record {
  statement =
      c.statement_trimmed ∙ kept_statement changes.statement previous.statement t u.statement;
  category = c.category_kept ∙ kept_category changes.category previous.category u.category;
  origin = c.origin_kept ∙ kept_origin changes.origin previous.origin u.origin;
  evidence = c.evidence_default ∙ kept_evidence changes.evidence previous.evidence u.evidence;
  actors =
      rw c.actors_kept (kept_strings changes.affected_actors previous.affected_actors u.actors);
  dependencies =
      rw c.dependencies_kept
        (kept_strings changes.dependencies previous.dependencies u.dependencies);
}
