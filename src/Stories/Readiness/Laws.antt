-- ===== src/Stories/Readiness/Laws.antt =====
-- What it takes for a story to be reported as ready for implementation.
use Prim.Native.Nat.{Ordering}
use solutions_studio.Base.{
  ◌≡◌, refl, ap, ◌∙◌, ◌≢◌, Bool, true, false, not, ◌||◌, Option, none, some, List, [], ◌∷◌, map,
  keep, any, every, All, arith, value_or, is_empty, if◌then◌else◌, inl, inr, Bool-cases,
}
use solutions_studio.Base.Text.{Text, Text-discrete, has, same}
use solutions_studio.Base.Maps.{get}
use solutions_studio.Base.Sets.{add_all, set_of, has-add_all, has-set_of}
use solutions_studio.Base.Result.{ok}
use solutions_studio.Requirements.Types.{RequirementsBaseline}
use solutions_studio.Stories.Types.{Story, GherkinScenario, deps}
use solutions_studio.Stories.Coverage.{covers}
use solutions_studio.Stories.Readiness.{
  StoryReadinessRuleId, requirement_revisions_belong_to_baseline, requirements_accepted_and_clear,
  no_blocking_open_findings, engineering_decisions_accepted_or_deferred, StoryReadinessPolicy,
  StoryReadinessEvaluationContext, failure_of, add_requirements, all_story_req_ids,
  check_membership, requirement_map, is_ready_requirement, check_requirements_accepted,
}
use solutions_studio.Stories.Readiness.Rules.{
  is_blocking_finding, check_findings, allows_deferred, is_failing_decision, check_decisions,
}
use solutions_studio.Stories.Readiness.Evaluation.{
  known_story_ids, offending_dependencies, Outcome, failures_of, check_story_dependencies,
}

-- No failure is reported for a list of rules that all passed, and only then.
pub all_passed :
    (os : List Outcome) → is_empty (failures_of os) ≡ true → All (λ (o : Outcome). o.1 ≡ none) os
unfolding failures_of
all_passed [] h = tt
all_passed ((rule, none) ∷ os) h = (refl, all_passed os h)
all_passed ((rule, some f) ∷ os) h = cc

pub none_failing :
    (rule : StoryReadinessRuleId) (ids : List Text)
    → failure_of rule ids ≡ none
    → is_empty ids ≡ true
unfolding failure_of
none_failing rule ids h = ground arith

pub kept_none :
    (p : Text → Bool) (xs : List Text) (u : Text)
    → is_empty (keep p xs) ≡ true
    → has u xs ≡ true
    → p u ≡ false
unfolding keep has
kept_none p [] u h m = cc
kept_none p (x ∷ xs) u h m = elim (Text-discrete u x) [
  | yes e ↦ ground (arith, ap p e)
  | no n ↦ ground (arith, kept_none p xs u)
]

every-not {ℓ} :
    {A : Type ℓ} (p : A → Bool) (f : A → Text) (xs : List A)
    → is_empty (map f (keep p xs)) ≡ true
    → every (λ x. not (p x)) xs ≡ true
unfolding keep every
every-not p f [] h = refl
every-not p f (x ∷ xs) h = ground (arith, every-not p f xs)

has-add_requirements :
    (u : Text) (scs : List GherkinScenario) (ids : List Text)
    → has u (add_requirements scs ids)
      ≡ (any (λ (sc : GherkinScenario). has u sc.requirement_revision_ids) scs || has u ids)
unfolding add_requirements any
has-add_requirements u [] ids = refl
has-add_requirements u (sc ∷ scs) ids = ground (
  arith,
  has-add_requirements u scs (add_all sc.requirement_revision_ids ids),
  has-add_all u sc.requirement_revision_ids ids,
)

-- The revisions that are checked are those that the story covers.
pub has-all_story_req_ids : (u : Text) (s : Story) → has u (all_story_req_ids s) ≡ covers u s
unfolding all_story_req_ids covers
has-all_story_req_ids u s = ground (
  arith,
  has-add_requirements u s.scenarios (set_of s.requirement_revision_ids),
  has-set_of u s.requirement_revision_ids,
)

-- The test of rule 2.
abbrev is_outside : RequirementsBaseline → Text → Bool
is_outside b id = not (has id (set_of b.requirement_revisions))

no_member : (xs : List Text) (u : Text) → is_empty xs ≡ true → has u xs ≢ true
unfolding has
no_member [] u e h = cc
no_member (x ∷ xs) u e h = cc

pub membership_passed :
    (context : StoryReadinessEvaluationContext) (b : RequirementsBaseline) (u : Text)
    → context.baseline ≡ some b
    → check_membership context ≡ none
    → covers u context.story ≡ true
    → has u b.requirement_revisions ≡ true
unfolding check_membership
membership_passed context b u given passed c =
    let ids = all_story_req_ids context.story in
    let inside =
      kept_none (is_outside b) ids u
        (none_failing requirement_revisions_belong_to_baseline (keep (is_outside b) ids)
          (ground (arith, given, passed)))
        (has-all_story_req_ids u context.story ∙ c) in
    ground (arith, inside, has-set_of u b.requirement_revisions)

-- The test of rule 3.
abbrev is_unready : StoryReadinessEvaluationContext → Text → Bool
is_unready context id =
    not (is_ready_requirement (get id (requirement_map context.requirement_revisions [])))

pub accepted_passed :
    (context : StoryReadinessEvaluationContext) (u : Text)
    → check_requirements_accepted context ≡ none
    → covers u context.story ≡ true
    → is_ready_requirement (get u (requirement_map context.requirement_revisions [])) ≡ true
unfolding check_requirements_accepted
accepted_passed context u passed c =
    let ids = all_story_req_ids context.story in
    let ready =
      kept_none (is_unready context) ids u
        (none_failing requirements_accepted_and_clear (keep (is_unready context) ids) passed)
        (has-all_story_req_ids u context.story ∙ c) in
    ground (arith, ready)

pub findings_passed :
    (context : StoryReadinessEvaluationContext) (policy : Option StoryReadinessPolicy)
    → check_findings context policy ≡ none
    → every
        (λ f. not (is_blocking_finding policy context.story (all_story_req_ids context.story) f))
        (value_or context.candidate_findings [])
      ≡ true
unfolding check_findings
findings_passed context policy passed =
    every-not (is_blocking_finding policy context.story (all_story_req_ids context.story))
      (λ f. f.id) (value_or context.candidate_findings [])
      (none_failing no_blocking_open_findings _ passed)

pub decisions_passed :
    (context : StoryReadinessEvaluationContext) (policy : Option StoryReadinessPolicy)
    → check_decisions context policy ≡ none
    → every
        (λ d. not (
          is_failing_decision
            (allows_deferred policy)
            context.story
            (all_story_req_ids context.story)
            d))
        (value_or context.engineering_decisions [])
      ≡ true
unfolding check_decisions
decisions_passed context policy passed =
    every-not
      (is_failing_decision (allows_deferred policy) context.story (all_story_req_ids context.story))
      (λ d. d.id) (value_or context.engineering_decisions [])
      (none_failing engineering_decisions_accepted_or_deferred _ passed)

-- The test of rule 10 on one dependency.
abbrev is_offending : StoryReadinessEvaluationContext → Text → Bool
is_offending context d =
    if same d context.story.id then true else not (has d (set_of (known_story_ids context)))

not_offending :
    (context : StoryReadinessEvaluationContext) (d : Text)
    → is_empty (offending_dependencies context) ≡ true
    → has d (deps context.story) ≡ true
    → is_offending context d ≡ false
unfolding offending_dependencies
not_offending context d e h = kept_none (is_offending context) (deps context.story) d e h

pub dependencies_passed :
    (locale_compare : Text → Text → Ordering) (context : StoryReadinessEvaluationContext) (d : Text)
    → check_story_dependencies locale_compare context ≡ ok none
    → has d (deps context.story) ≡ true
    → (d ≢ context.story.id) × (has d (known_story_ids context) ≡ true)
unfolding check_story_dependencies failure_of
dependencies_passed locale_compare context d passed h =
    elim (Bool-cases (is_empty (deps context.story))) [
      | inl nothing ↦ absurd (no_member (deps context.story) d nothing h)
      | inr present ↦ elim (Bool-cases (is_empty (offending_dependencies context))) [
        | inl e ↦
            ground (arith, not_offending context d e h, has-set_of d (known_story_ids context))
        | inr offending ↦ absurd (ground (arith, present, offending, passed))
      ]
    ]
