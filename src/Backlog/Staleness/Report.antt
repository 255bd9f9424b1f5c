-- ===== src/Backlog/Staleness/Report.antt =====
-- The third pass of ExportStaleness.ts: the report on the stories that are asked for, and the whole
-- function.
use solutions_studio.Base.{
  ℕ, Bool, true, false, Option, none, some, List, [], ◌∷◌, keep, length, if◌then◌else◌,
}
use solutions_studio.Base.Text.{Text, has}
use solutions_studio.Base.Maps.{Map, get}
use solutions_studio.Stories.Types.{Story}
use solutions_studio.Backlog.Types.{BacklogExportMapping, BacklogExportHistoryEntry}
use solutions_studio.Backlog.Staleness.{
  ExportStalenessClassification, current, stale, impacted, unexported, StalenessCause,
  ExportedStoryLineage, AdvisorySemanticImpactResult, EvaluateExportStalenessParams,
  MutableStoryEvaluation,
}
use solutions_studio.Backlog.Staleness.Direct.{mapping_by_story_id, evaluate_stories}
use solutions_studio.Backlog.Staleness.Propagation.{propagate_all}

pub record StoryExportStalenessReport : Type 0 where
  pub story_id : Text
  pub classification : ExportStalenessClassification
  pub causes : List StalenessCause
  pub exported_lineage : Option ExportedStoryLineage
  pub impacted_by_prerequisite_story_ids : List Text
  pub current_content_hash : Text
  pub advisory_semantic_impact : Option AdvisorySemanticImpactResult
  pub history : List BacklogExportHistoryEntry

pub record BaselineExportStalenessReport : Type 0 where
  pub baseline_id : Text
  pub total_stories : ℕ
  pub current_count : ℕ
  pub stale_count : ℕ
  pub impacted_count : ℕ
  pub unexported_count : ℕ
  pub stories : List StoryExportStalenessReport

-- `targetIdSet && !targetIdSet.has(id)` does not hold.
abbrev pub is_target : Option (List Text) → Text → Bool
is_target none id = true
is_target (some ids) id = has id ids

abbrev pub impact_of :
    Option (Map AdvisorySemanticImpactResult) → Text → Option AdvisorySemanticImpactResult
impact_of none id = none
impact_of (some m) id = get id m

abbrev pub history_of : Option BacklogExportMapping → List BacklogExportHistoryEntry
history_of none = []
history_of (some m) = m.history

unfoldable pub report_of :
    EvaluateExportStalenessParams
    → Map BacklogExportMapping
    → MutableStoryEvaluation
    → StoryExportStalenessReport
report_of params mappings ev = record {
  story_id = ev.story.id;
  classification = ev.classification;
  causes = ev.causes;
  exported_lineage = ev.exported_lineage;
  impacted_by_prerequisite_story_ids = ev.impacted_by_prerequisite_story_ids;
  current_content_hash = ev.current_content_hash;
  advisory_semantic_impact = impact_of params.advisory_semantic_impacts ev.story.id;
  history = history_of (get ev.story.id mappings);
}

-- The loop over the stories.
unfoldable pub report_stories :
    EvaluateExportStalenessParams
    → Map BacklogExportMapping
    → Map MutableStoryEvaluation
    → List Story
    → List StoryExportStalenessReport
unfolding report_of
report_stories params mappings evaluations [] = []
report_stories params mappings evaluations (s ∷ ss) =
    let rest = report_stories params mappings evaluations ss in
    if is_target params.target_story_ids s.id
    then elim (get s.id evaluations) [ none ↦ rest | some ev ↦ report_of params mappings ev ∷ rest ]
    else rest

abbrev pub same_classification : (a b : ExportStalenessClassification) → Bool
same_classification current current = true
same_classification stale stale = true
same_classification impacted impacted = true
same_classification unexported unexported = true
same_classification _ _ = false

-- `resultStories.filter((s) => s.classification === c).length`.
unfoldable pub count_of : ExportStalenessClassification → List StoryExportStalenessReport → ℕ
count_of c stories = length (keep (λ s. same_classification s.classification c) stories)

unfoldable pub baseline_report :
    EvaluateExportStalenessParams → List StoryExportStalenessReport → BaselineExportStalenessReport
unfolding count_of
baseline_report params stories = record {
  baseline_id = params.baseline.id;
  total_stories = length stories;
  current_count = count_of current stories;
  stale_count = count_of stale stories;
  impacted_count = count_of impacted stories;
  unexported_count = count_of unexported stories;
  stories = stories;
}

abbrev pub mappings_of : EvaluateExportStalenessParams → Map BacklogExportMapping
mappings_of params = mapping_by_story_id params.mappings []

-- The evaluations after the first pass, and after the second.
abbrev pub direct : EvaluateExportStalenessParams → Map MutableStoryEvaluation
direct params = evaluate_stories params (mappings_of params) params.stories []

abbrev pub final : EvaluateExportStalenessParams → Option (Map MutableStoryEvaluation)
final params = propagate_all (mappings_of params) (direct params)

-- No report stands for a loop that would not have ended in time.
unfoldable pub evaluate_export_staleness :
    EvaluateExportStalenessParams → Option BaselineExportStalenessReport
evaluate_export_staleness params = elim (final params) [
  | none ↦ none
  | some evaluations ↦ some (
      baseline_report params
        (report_stories params (mappings_of params) evaluations params.stories))
]
