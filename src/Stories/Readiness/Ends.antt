-- ===== src/Stories/Readiness/Ends.antt =====
-- `evaluateStoryReadiness` of StoryReadiness.ts returns or throws an error of its own: its searches for
-- cycles end.
use Prim.Native.Nat.{Ordering}
use solutions_studio.Base.{
  ◌≢◌, refl, Option, none, some, List, [], ◌∷◌, find, value_or, is_empty, Bool-cases, inl, inr,
  subst,
}
use solutions_studio.Base.Text.{Text, has}
use solutions_studio.Base.Result.{ok, throw, ◌>>=◌}
use solutions_studio.Stories.Types.{Story, out_of_fuel, deps}
use solutions_studio.Stories.Cycles.{find_cyclic_story_ids}
use solutions_studio.Stories.CycleSearch.{detect_cycles, find_cycle_for_story}
use solutions_studio.Stories.CycleSearch.Rounds.{
  Ends, bind-Ends, detect_cycles-Ends, find_cycle_for_story-Ends, find_cyclic_story_ids-Ends,
}
use solutions_studio.Stories.Readiness.{StoryReadinessPolicy, StoryReadinessEvaluationContext}
use solutions_studio.Stories.Readiness.Evaluation.{
  participating_cycle, report_cycle, check_cycles, offending_dependencies, check_story_dependencies,
  outcomes, evaluate_story_readiness,
}

module _ (locale_compare : Text → Text → Ordering) where
  found-Ends :
      (id : Text) (stories : List Story) (found : Option (List Text))
      → Ends {A = List Text} (elim found [
        | some c ↦ ok c
        | none ↦ do
          own ← find_cycle_for_story locale_compare id stories
          ok (value_or own (id ∷ id ∷ []))
      ])
  unfolding Ends
  found-Ends id stories (some c) = tt
  found-Ends id stories none =
      bind-Ends (find_cycle_for_story locale_compare id stories) _
        (find_cycle_for_story-Ends locale_compare id stories) (λ own e. tt)

  participating_cycle-Ends :
      (id : Text) (stories : List Story) → Ends (participating_cycle locale_compare id stories)
  unfolding participating_cycle
  participating_cycle-Ends id stories =
      bind-Ends (detect_cycles locale_compare stories) _ (detect_cycles-Ends locale_compare stories)
        (λ cycles e. found-Ends id stories (find (λ c. has id c) cycles))

  report_cycle-Ends :
      (id : Text) (stories : List Story) → Ends (report_cycle locale_compare id stories)
  unfolding report_cycle Ends
  report_cycle-Ends id stories =
      bind-Ends (participating_cycle locale_compare id stories) _
        (participating_cycle-Ends id stories) (λ c e. tt)

  check_cycles-Ends :
      (id : Text) (stories : List Story) → Ends (check_cycles locale_compare id stories)
  unfolding check_cycles Ends
  check_cycles-Ends id stories =
      bind-Ends (find_cyclic_story_ids locale_compare stories) _
        (find_cyclic_story_ids-Ends locale_compare stories)
        (λ cyclic e. elim (Bool-cases (has id cyclic)) [
          | inl there ↦ rw there (report_cycle-Ends id stories)
          | inr gone ↦ rw gone tt
        ])

  searched-Ends :
      (id : Text) (given : Option (List Story))
      → Ends (elim given [ none ↦ ok none | some stories ↦ check_cycles locale_compare id stories ])
  unfolding Ends
  searched-Ends id none = tt
  searched-Ends id (some stories) = check_cycles-Ends id stories

  check_story_dependencies-Ends :
      (context : StoryReadinessEvaluationContext)
      → Ends (check_story_dependencies locale_compare context)
  unfolding check_story_dependencies Ends
  check_story_dependencies-Ends context = elim (Bool-cases (is_empty (deps context.story))) [
    | inl nothing ↦ rw nothing tt
    | inr present ↦ elim (Bool-cases (is_empty (offending_dependencies context))) [
      | inl clean ↦ rw (present, clean) (searched-Ends context.story.id context.baseline_stories)
      | inr offending ↦ rw (present, offending) tt
    ]
  ]

  evaluation-Ends :
      (context : StoryReadinessEvaluationContext) (policy : Option StoryReadinessPolicy)
      (at : Option Text) (now : Text)
      → Ends (evaluate_story_readiness locale_compare context policy at now)
  unfolding evaluate_story_readiness outcomes Ends
  evaluation-Ends context policy at now =
      bind-Ends (outcomes locale_compare context policy) _
        (bind-Ends (check_story_dependencies locale_compare context) _
          (check_story_dependencies-Ends context) (λ d e. tt))
        (λ os e. tt)

-- For every context and policy the evaluation of a story ends: the recursion of the search for
-- components, the rounds of the breadth-first search and so every search for a cycle stay within their
-- fuel, and what is thrown is an error of the code's own.
pub evaluate_story_readiness_ends :
    (locale_compare : Text → Text → Ordering) (context : StoryReadinessEvaluationContext)
    (policy : Option StoryReadinessPolicy) (at : Option Text) (now : Text)
    → evaluate_story_readiness locale_compare context policy at now ≢ throw out_of_fuel
unfolding Ends
evaluate_story_readiness_ends locale_compare context policy at now e =
    (subst (λ r. Ends r) e (evaluation-Ends locale_compare context policy at now)) refl
