-- ===== src/Backlog/Staleness/Start.antt =====
-- What the first pass of ExportStaleness.ts leaves of each story.
use solutions_studio.Base.{
  ◌≡◌, ◌≢◌, inl, inr, refl, not, Bool, true, false, Option, none, some, List, [], ◌∷◌, arith, All,
  is_empty, if◌then◌else◌,
}
use solutions_studio.Base.Text.{Text}
use solutions_studio.Base.Maps.{Map, get, set, get-set, get-set_same, get-set_cases}
use solutions_studio.Stories.Types.{Story}
use solutions_studio.Backlog.Types.{BacklogExportMapping}
use solutions_studio.Backlog.Staleness.{
  current, stale, impacted, EvaluateExportStalenessParams, MutableStoryEvaluation,
}
use solutions_studio.Backlog.Staleness.Direct.{direct_causes, evaluate_directly, evaluate_stories}
use solutions_studio.Backlog.Staleness.Propagation.{is_affected}

-- What the first pass leaves of a story.
pub record IsDirect (id : Text) (ev : MutableStoryEvaluation) : Type 0 where
  pub keyed : ev.story.id ≡ id
  pub not_impacted : ev.classification ≢ impacted
  pub explained : is_empty ev.causes ≡ not (is_affected ev.classification)

direct_classification : (b : Bool) → (if b then current else stale) ≢ impacted
direct_classification true e = cc
direct_classification false e = cc

direct_explained : (b : Bool) → b ≡ not (is_affected (if b then current else stale))
direct_explained true = refl
direct_explained false = refl

evaluate_directly-IsDirect :
    (params : EvaluateExportStalenessParams) (m : Option BacklogExportMapping) (s : Story)
    → IsDirect s.id (evaluate_directly params m s)
unfolding evaluate_directly
evaluate_directly-IsDirect params none s = record {
  keyed = refl;
  not_impacted = λ e. cc;
  explained = refl;
}
evaluate_directly-IsDirect params (some m) s = record {
  keyed = refl;
  not_impacted = direct_classification (is_empty (direct_causes params s m));
  explained = direct_explained (is_empty (direct_causes params s m));
}

module _ (params : EvaluateExportStalenessParams) (mappings : Map BacklogExportMapping) where
  unfoldable pub AllDirect : Map MutableStoryEvaluation → Type 0
  AllDirect evaluations =
      (id : Text) (ev : MutableStoryEvaluation) → get id evaluations ≡ some ev → IsDirect id ev

  pub evaluate_stories-IsDirect :
      (stories : List Story) (evaluations : Map MutableStoryEvaluation)
      → AllDirect evaluations
      → AllDirect (evaluate_stories params mappings stories evaluations)
  unfolding evaluate_stories AllDirect
  evaluate_stories-IsDirect [] evaluations all = all
  evaluate_stories-IsDirect (s ∷ ss) evaluations all =
      let ev = evaluate_directly params (get s.id mappings) s in
      evaluate_stories-IsDirect ss (set s.id ev evaluations) (λ id found e.
        elim (get-set_cases s.id id ev found evaluations e) [
          | inl (p, q) ↦ rw (p, q) (evaluate_directly-IsDirect params (get s.id mappings) s)
          | inr known ↦ all id found known
        ])

unfoldable pub is_known : Option MutableStoryEvaluation → Bool
is_known none = false
is_known (some ev) = true

module _ (params : EvaluateExportStalenessParams) (mappings : Map BacklogExportMapping) where
  known-set :
      (id j : Text) (ev : MutableStoryEvaluation) (evaluations : Map MutableStoryEvaluation)
      → is_known (get j evaluations) ≡ true
      → is_known (get j (set id ev evaluations)) ≡ true
  unfolding is_known
  known-set id j ev evaluations h = ground (arith, get-set id j ev evaluations)

  known_kept :
      (j : Text) (stories : List Story) (evaluations : Map MutableStoryEvaluation)
      → is_known (get j evaluations) ≡ true
      → is_known (get j (evaluate_stories params mappings stories evaluations)) ≡ true
  unfolding evaluate_stories
  known_kept j [] evaluations h = h
  known_kept j (s ∷ ss) evaluations h =
      let ev = evaluate_directly params (get s.id mappings) s in
      known_kept j ss (set s.id ev evaluations) (known-set s.id j ev evaluations h)

  -- The first pass evaluates every story.
  pub evaluate_stories_known :
      (stories : List Story) (evaluations : Map MutableStoryEvaluation)
      → All
          (λ s. is_known (get s.id (evaluate_stories params mappings stories evaluations)) ≡ true)
          stories
  unfolding evaluate_stories is_known
  evaluate_stories_known [] evaluations = tt
  evaluate_stories_known (s ∷ ss) evaluations =
      let ev = evaluate_directly params (get s.id mappings) s in
      (
        known_kept s.id ss (set s.id ev evaluations) (rw (get-set_same s.id ev evaluations) refl),
        evaluate_stories_known ss (set s.id ev evaluations),
      )
