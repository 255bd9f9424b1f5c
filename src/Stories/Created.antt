-- ===== src/Stories/Created.antt =====
-- Stories of `createStory` under the rules of StoryReadiness.ts and the order of
-- StoryDependencyGraph.ts, both in packages/domain/src/requirements.
mod Samples
use Prim.Native.Nat.{Ordering}
use solutions_studio.Base.{
  ◌≡◌, ◌⊎◌, refl, true, false, ◌||◌, none, List, [], ◌∷◌, ◌++◌, arith, All, is_empty, value_or, not,
  keep, map,
}
use solutions_studio.Base.Text.{IsWritten, Text, has}
use solutions_studio.Base.Result.{ok}
use solutions_studio.Base.Sets.{set_of}
use solutions_studio.Ids.{assert_non_empty, create_story_id}
use solutions_studio.Stories.Types.{Story, GherkinScenario, StoryDependencyGraphValidationResult}
use solutions_studio.Stories.Create.{CreateStoryParams, create_story}
use solutions_studio.Stories.Create.Laws.{IsScenario, IsStory, create_story-IsStory}
use solutions_studio.Stories.Order.{compute_topological_execution_order}
use solutions_studio.Stories.Order.Start.{IsCanonical}
use solutions_studio.Stories.Order.Laws.{
  IsExecutionOrder, compute_topological_execution_order_sound,
}
use solutions_studio.Stories.Readiness.{StoryReadinessEvaluationContext, failure_of}
use solutions_studio.Stories.Readiness.Rules.{
  undeclared, untraceable_scenario, untraceable_scenarios, check_traceability,
}

undeclared_none :
    (declared : List Text) (id : Text) (xs : List Text)
    → All (λ x. has x declared ≡ true) xs
    → undeclared declared id xs ≡ []
unfolding keep
undeclared_none declared id [] all = refl
undeclared_none declared id (x ∷ xs) all =
    ground (arith, all.0, undeclared_none declared id xs all.1)

traceable_scenario :
    (requirements policies : List Text) (s : GherkinScenario)
    → IsScenario requirements policies s
    → untraceable_scenario requirements policies s ≡ []
unfolding untraceable_scenario
traceable_scenario requirements policies s w = rw (
  w.has_steps,
  w.has_requirements,
  undeclared_none requirements (value_or s.id s.title) s.requirement_revision_ids
      w.requirements_declared,
  undeclared_none policies (value_or s.id s.title) (value_or s.policy_constraint_revision_ids [])
      w.policies_declared,
)

traceable_scenarios :
    (requirements policies : List Text) (ss : List GherkinScenario)
    → All (IsScenario requirements policies) ss
    → untraceable_scenarios requirements policies ss ≡ []
unfolding untraceable_scenarios
traceable_scenarios requirements policies [] all = refl
traceable_scenarios requirements policies (s ∷ ss) all = rw (
  traceable_scenario requirements policies s all.0,
  traceable_scenarios requirements policies ss all.1,
)

-- Whatever else a story is evaluated with, a story that `createStory` returned passes the rule on
-- traceability.
pub create_story-check_traceability :
    (params : CreateStoryParams) (now : Text) (context : StoryReadinessEvaluationContext)
    → create_story params now ≡ ok context.story
    → check_traceability context ≡ none
unfolding check_traceability failure_of set_of
create_story-check_traceability params now context h =
    let w = create_story-IsStory params now context.story h in
    rw (
      w.has_scenarios,
      traceable_scenarios context.story.requirement_revision_ids
          (value_or context.story.policy_constraint_revision_ids []) context.story.scenarios
          w.scenarios,
    )

-- `createStory` returned the story.
abbrev pub IsCreated : Story → Type 0
IsCreated s = (params : CreateStoryParams) × (now : Text) × (create_story params now ≡ ok s)

canonical_id : (t : Text) → IsWritten t → create_story_id t ≡ ok t
unfolding create_story_id assert_non_empty
canonical_id t w = rw (w.nonblank, w.trimmed)

created-IsCanonical : (stories : List Story) → All IsCreated stories → IsCanonical stories
created-IsCanonical [] all = tt
created-IsCanonical (s ∷ ss) ((params, now, h), others) =
    (canonical_id s.id (create_story-IsStory params now s h).id, created-IsCanonical ss others)

-- For stories that `createStory` returned, the function always returns an order, and the order is
-- empty or holds every story exactly once, each behind the stories that it depends on.
pub created_stories_scheduled :
    (locale_compare : Text → Text → Ordering) (stories : List Story)
    (validation : StoryDependencyGraphValidationResult)
    → All IsCreated stories
    → (order : List Text) × (compute_topological_execution_order locale_compare stories validation
        ≡ ok order)
      × ((order ≡ []) ⊎ IsExecutionOrder stories order)
created_stories_scheduled locale_compare stories validation all =
    compute_topological_execution_order_sound locale_compare stories validation
      (created-IsCanonical stories all)
