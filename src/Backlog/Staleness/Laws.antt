-- ===== src/Backlog/Staleness/Laws.antt =====
-- What a report of ExportStaleness.ts says of each story.
use solutions_studio.Base.{
  ◌≡◌, ◌↔◌, inl, inr, refl, subst, sym, ap, ◌∙◌, true, Option, none, some, List, [], ◌∷◌, All,
  Bool-cases, Option-cases,
}
use solutions_studio.Base.Text.{Text}
use solutions_studio.Base.Maps.{Map, get}
use solutions_studio.Stories.Types.{Story}
use solutions_studio.Backlog.Types.{BacklogExportMapping}
use solutions_studio.Backlog.Staleness.{EvaluateExportStalenessParams, MutableStoryEvaluation}
use solutions_studio.Backlog.Staleness.Propagation.{is_affected, is_affected_evaluation}
use solutions_studio.Backlog.Staleness.Report.{
  StoryExportStalenessReport, BaselineExportStalenessReport, report_of, report_stories,
  baseline_report, is_target, mappings_of, direct, evaluate_export_staleness,
}
use solutions_studio.Backlog.Staleness.Tainted.{Tainted, Follows, NoneImpacted, affected-Tainted}
use solutions_studio.Backlog.Staleness.Completeness.{Tainted-is_affected}
use solutions_studio.Backlog.Staleness.Start.{IsDirect, AllDirect, evaluate_stories-IsDirect}
use solutions_studio.Backlog.Staleness.Rounds.{IsSettled, propagate_all_settles}

-- What holds of each evaluation's report holds of all reports.
pub report_stories-All :
    (params : EvaluateExportStalenessParams) (mappings : Map BacklogExportMapping)
    (evaluations : Map MutableStoryEvaluation) (P : StoryExportStalenessReport → Type 0)
    → ((id : Text) (ev : MutableStoryEvaluation)
        → get id evaluations ≡ some ev
        → P (report_of params mappings ev))
    → (stories : List Story) → All P (report_stories params mappings evaluations stories)
unfolding report_stories
report_stories-All params mappings evaluations P each [] = tt
report_stories-All params mappings evaluations P each (s ∷ ss) =
    let rest = report_stories-All params mappings evaluations P each ss in
    elim (Bool-cases (is_target params.target_story_ids s.id)) [
      | inl target ↦ elim (Option-cases (get s.id evaluations)) [
        | inl gone ↦ rw (target, gone) rest
        | inr (ev, e) ↦ rw (target, e) (each s.id ev e, rest)
      ]
      | inr other ↦ rw other rest
    ]

module _ (params : EvaluateExportStalenessParams) where
  pub direct-IsDirect :
      (id : Text) (ev : MutableStoryEvaluation) → get id (direct params) ≡ some ev → IsDirect id ev
  unfolding AllDirect get
  direct-IsDirect =
      evaluate_stories-IsDirect params (mappings_of params) params.stories [] (λ id ev e. absurd cc)

  pub none_impacted : NoneImpacted (mappings_of params) (direct params)
  none_impacted id ev e = (direct-IsDirect id ev e).not_impacted

  Follows-keyed :
      (id : Text) (before : Option MutableStoryEvaluation) (ev : MutableStoryEvaluation)
      → get id (direct params) ≡ before
      → Follows (mappings_of params) (direct params) id before (some ev)
      → ev.story.id ≡ id
  Follows-keyed id none ev known f = elim f [ ]
  Follows-keyed id (some a) ev known f =
      ap (λ (s : Story). s.id) f.0 ∙ (direct-IsDirect id a known).keyed

  module _ (settled : Map MutableStoryEvaluation)
      (w : IsSettled (mappings_of params) (direct params) settled) where
    pub stored_keyed :
        (id : Text) (ev : MutableStoryEvaluation) → get id settled ≡ some ev → ev.story.id ≡ id
    stored_keyed id ev e = Follows-keyed id (get id (direct params)) ev refl (
        subst (λ o. Follows (mappings_of params) (direct params) id (get id (direct params)) o) e
          (w.follows id))

    -- An evaluation stands under its story's identifier.
    settled_keyed :
        (id : Text) (ev : MutableStoryEvaluation)
        → get id settled ≡ some ev
        → get ev.story.id settled ≡ some ev
    settled_keyed id ev e = ap (λ k. get k settled) (stored_keyed id ev e) ∙ e

    affected_iff :
        (id : Text) (ev : MutableStoryEvaluation)
        → get id settled ≡ some ev
        → (is_affected ev.classification ≡ true)
          ↔ Tainted (mappings_of params) (direct params) ev.story.id
    affected_iff id ev e =
        let own = settled_keyed id ev e in
        (
          λ h.
              affected-Tainted (mappings_of params) (direct params) none_impacted ev.story.id
                (get ev.story.id (direct params)) (get ev.story.id settled) refl
                (w.follows ev.story.id) (rw own h),
          λ t.
              ap is_affected_evaluation (sym own)
              ∙ Tainted-is_affected (mappings_of params) (direct params) settled w.follows w.quiet
                  ev.story.id t,
        )

  -- The rounds of the second pass end, and a report then calls a story stale or impacted exactly when
  -- its export is stale by itself, has a prerequisite that was exported again, or depends on a story
  -- of which this holds.
  pub evaluate_export_staleness-Tainted :
      (report : BaselineExportStalenessReport) × (evaluate_export_staleness params ≡ some report)
      × All
          (λ r.
            (is_affected r.classification ≡ true)
            ↔ Tainted (mappings_of params) (direct params) r.story_id)
          report.stories
  unfolding evaluate_export_staleness baseline_report report_of
  evaluate_export_staleness-Tainted =
      let (settled, e, w) =
        propagate_all_settles (mappings_of params) (direct params) none_impacted in
      (
        baseline_report params (report_stories params (mappings_of params) settled params.stories),
        rw (evaluate_export_staleness, e) refl,
        report_stories-All params (mappings_of params) settled
            (λ r.
              (is_affected r.classification ≡ true)
              ↔ Tainted (mappings_of params) (direct params) r.story_id)
            (affected_iff settled w) params.stories,
      )
