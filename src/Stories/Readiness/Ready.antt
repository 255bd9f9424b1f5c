-- ===== src/Stories/Readiness/Ready.antt =====
-- What a team may rely on when a story is reported as ready for implementation.
use Prim.Native.Nat.{Ordering}
use mathlib.Core.List.{Memᴰ}
use solutions_studio.Base.{
  ◌≡◌, refl, ◌≢◌, true, Option, none, some, List, [], ◌∷◌, arith, value_or, is_empty, inl, inr,
  Option-cases, Bool, Bool-cases, false,
}
use solutions_studio.Base.Text.{Text, has}
use solutions_studio.Base.Maps.{get}
use solutions_studio.Base.Result.{Result, ok, throw, Result-cases}
use solutions_studio.Requirements.Types.{
  RequirementsBaseline, RequirementRevision, RequirementReviewState, clear, CandidateFinding,
  EngineeringDecision,
}
use solutions_studio.Requirements.Finding.{is_open}
use solutions_studio.Stories.Types.{Story, GraphError, deps}
use solutions_studio.Stories.Coverage.Naming.{Names, Names-covers}
use solutions_studio.Stories.Cycles.{find_cyclic_story_ids}
use solutions_studio.Stories.Readiness.{
  StoryReadinessFailure, StoryReadinessPolicy, StoryReadinessEvaluationContext,
  StoryReadinessReport, all_story_req_ids, check_baseline, check_membership, requirement_map,
  failure_of, check_requirements_accepted, check_policy_constraints, baseline_exists,
  requirement_revisions_belong_to_baseline, requirements_accepted_and_clear,
  policy_constraints_valid, no_blocking_open_findings, story_traceability_declared,
  engineering_decisions_accepted_or_deferred, sql_projection_valid, openapi_projection_valid,
  story_dependencies_exist,
}
use solutions_studio.Stories.Readiness.Rules.{
  is_blocking_finding, check_findings, check_traceability, allows_deferred, is_failing_decision,
  check_decisions, check_sql_projection, check_openapi_projection,
}
use solutions_studio.Stories.Readiness.Evaluation.{
  known_story_ids, Outcome, failures_of, check_story_dependencies, evaluate_story_readiness,
  offending_dependencies, participating_cycle, report_cycle, check_cycles,
}
use solutions_studio.Stories.Readiness.Named.{
  NamesPolicy, BlocksBy, Concerns, Decides, FailsBy, IsValidPolicy, ready_requirement,
  policies_passed, blocking_lem, failing_lem, every_member,
}
use solutions_studio.Stories.Readiness.Laws.{
  all_passed, membership_passed, accepted_passed, findings_passed, decisions_passed,
  dependencies_passed,
}

-- The rules of a story whose dependencies were checked.
abbrev rules :
    StoryReadinessEvaluationContext
    → Option StoryReadinessPolicy
    → Option StoryReadinessFailure
    → List Outcome
rules context policy dependencies =
    (baseline_exists, check_baseline context)
    ∷ (requirement_revisions_belong_to_baseline, check_membership context)
    ∷ (requirements_accepted_and_clear, check_requirements_accepted context)
    ∷ (policy_constraints_valid, check_policy_constraints context)
    ∷ (no_blocking_open_findings, check_findings context policy)
    ∷ (story_traceability_declared, check_traceability context)
    ∷ (engineering_decisions_accepted_or_deferred, check_decisions context policy)
    ∷ (sql_projection_valid, check_sql_projection context policy)
    ∷ (openapi_projection_valid, check_openapi_projection context policy)
    ∷ (story_dependencies_exist, dependencies)
    ∷ []

true_or_false : {b : Bool} → b ≡ true → b ≡ false → ⊥
true_or_false t f = cc

evaluated_parts :
    (locale_compare : Text → Text → Ordering) (context : StoryReadinessEvaluationContext)
    (policy : Option StoryReadinessPolicy) (at : Option Text) (now : Text)
    (r : StoryReadinessReport) (checked : Result GraphError (Option StoryReadinessFailure))
    → check_story_dependencies locale_compare context ≡ checked
    → evaluate_story_readiness locale_compare context policy at now ≡ ok r
    → (d : Option StoryReadinessFailure) × (checked ≡ ok d)
      × (r.is_ready ≡ is_empty (failures_of (rules context policy d)))
unfolding evaluate_story_readiness
evaluated_parts locale_compare context policy at now r (throw e) c h = absurd (cc)
evaluated_parts locale_compare context policy at now r (ok d) c h = (d, refl, cc)

-- What a story that is ready rests on.
pub record IsImplementable (locale_compare : Text → Text → Ordering)
    (context : StoryReadinessEvaluationContext) (policy : Option StoryReadinessPolicy)
    : Type 0 where
  pub baseline : RequirementsBaseline
  pub given : context.baseline ≡ some baseline
  -- What the story or a scenario of it names is in the baseline, accepted and clear.
  pub members : (u : Text) → Names u context.story → has u baseline.requirement_revisions ≡ true
  pub accepted :
      (u : Text)
      → Names u context.story
      → (r : RequirementRevision) × (get u (requirement_map context.requirement_revisions [])
          ≡ some r)
        × (r.review_state ≡ RequirementReviewState.accepted)
        × (r.resolution_state ≡ clear)
  pub policies : (u : Text) → NamesPolicy u context.story → IsValidPolicy context baseline u
  pub unblocked :
      (f : CandidateFinding)
      → Memᴰ f (value_or context.candidate_findings [])
      → is_open f.disposition ≡ true
      → BlocksBy policy f.type
      → ¬ Concerns context.story f
  pub decided :
      (d : EngineeringDecision)
      → Memᴰ d (value_or context.engineering_decisions [])
      → Decides context.story d
      → ¬ FailsBy policy d.state
  pub dependencies :
      (d : Text)
      → has d (deps context.story) ≡ true
      → (d ≢ context.story.id) × (has d (known_story_ids context) ≡ true)
  pub acyclic :
      (stories : List Story)
      → context.baseline_stories ≡ some stories
      → is_empty (deps context.story) ≡ false
      → (cyclic : List Text) × (find_cyclic_story_ids locale_compare stories ≡ ok cyclic)
        × (has context.story.id cyclic ≡ false)

not_reported :
    (locale_compare : Text → Text → Ordering) (id : Text) (stories : List Story)
    → report_cycle locale_compare id stories ≢ ok none
unfolding report_cycle
not_reported locale_compare id stories h =
    elim (Result-cases (participating_cycle locale_compare id stories)) [
      | inl (c, found) ↦ ground (arith, h, found)
      | inr (e, thrown) ↦ ground (arith, h, thrown)
    ]

cycles_passed :
    (locale_compare : Text → Text → Ordering) (id : Text) (stories : List Story)
    → check_cycles locale_compare id stories ≡ ok none
    → (cyclic : List Text) × (find_cyclic_story_ids locale_compare stories ≡ ok cyclic)
      × (has id cyclic ≡ false)
unfolding check_cycles
cycles_passed locale_compare id stories h =
    elim (Result-cases (find_cyclic_story_ids locale_compare stories)) [
      | inr (e, thrown) ↦ absurd (ground (arith, h, thrown))
      | inl (cyclic, found) ↦ elim (Bool-cases (has id cyclic)) [
        | inr gone ↦ (cyclic, found, gone)
        | inl there ↦
            absurd (not_reported locale_compare id stories (ground (arith, h, found, there)))
      ]
    ]

acyclic_passed :
    (locale_compare : Text → Text → Ordering) (context : StoryReadinessEvaluationContext)
    (stories : List Story)
    → check_story_dependencies locale_compare context ≡ ok none
    → context.baseline_stories ≡ some stories
    → is_empty (deps context.story) ≡ false
    → check_cycles locale_compare context.story.id stories ≡ ok none
unfolding check_story_dependencies failure_of
acyclic_passed locale_compare context stories passed given present =
    elim (Bool-cases (is_empty (offending_dependencies context))) [
      | inl clean ↦ ground (arith, passed, given, present, clean)
      | inr offending ↦ absurd (ground (arith, present, offending, passed))
    ]

baseline_passed :
    (context : StoryReadinessEvaluationContext)
    → check_baseline context ≡ none
    → (b : RequirementsBaseline) × (context.baseline ≡ some b)
unfolding check_baseline
baseline_passed context passed = elim (Option-cases context.baseline) [
  | inl absent ↦ absurd (ground arith)
  | inr found ↦ found
]

-- A story that is reported as ready has a baseline. Each requirement revision that it or a scenario of it
-- names is in the baseline, accepted and clear, and each policy constraint revision in the baseline and
-- accepted. No open finding of a type that blocks under the policy concerns it, and no decision on it
-- is rejected, or proposed when the policy does not allow that. Each of its dependencies is another known story, and
-- if it has any and the stories of the baseline are given, findCyclicStoryIds does not return it.
pub evaluate_story_readiness-IsImplementable :
    (locale_compare : Text → Text → Ordering) (context : StoryReadinessEvaluationContext)
    (policy : Option StoryReadinessPolicy) (at : Option Text) (now : Text)
    (r : StoryReadinessReport)
    → evaluate_story_readiness locale_compare context policy at now ≡ ok r
    → r.is_ready ≡ true
    → IsImplementable locale_compare context policy
evaluate_story_readiness-IsImplementable locale_compare context policy at now r h ready =
    let (d, checked, e) =
      evaluated_parts locale_compare context policy at now r
        (check_story_dependencies locale_compare context) refl h in
    let (p1, (p2, (p3, (p4, (p5, (p6, (p7, (p8, (p9, (p10, end)))))))))) =
      all_passed (rules context policy d) (cc) in
    let (b, given) = baseline_passed context p1 in
    let story = context.story in
    let clean : check_story_dependencies locale_compare context ≡ ok none = ground (arith, p10) in
    record {
      baseline = b;
      given = given;
      members = λ u n. membership_passed context b u given p2 (Names-covers u story n);
      accepted = λ u n.
          ready_requirement (get u (requirement_map context.requirement_revisions []))
            (accepted_passed context u p3 (Names-covers u story n));
      policies = λ u. policies_passed context b u given p4;
      unblocked = λ f m opened blocks concerns.
          true_or_false (blocking_lem policy story f opened blocks concerns) (
            every_member (is_blocking_finding policy story (all_story_req_ids story))
              (value_or context.candidate_findings []) f (findings_passed context policy p5) m);
      decided = λ x m on fails. true_or_false (failing_lem policy story x on fails) (
          every_member
            (is_failing_decision (allows_deferred policy) story (all_story_req_ids story))
            (value_or context.engineering_decisions []) x (decisions_passed context policy p7) m);
      dependencies = λ u. dependencies_passed locale_compare context u clean;
      acyclic = λ stories all present.
          cycles_passed locale_compare story.id stories
            (acyclic_passed locale_compare context stories clean all present);
    }
