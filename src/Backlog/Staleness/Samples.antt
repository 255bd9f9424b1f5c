-- ===== src/Backlog/Staleness/Samples.antt =====
-- Three exported stories in a row, the last of which is stale, and a story that is not exported.
use Prim.Native.String.{String}
use solutions_studio.Base.{
  ◌+◌, ◌≡◌, ◌↔◌, refl, true, not, Option, none, some, List, [], ◌∷◌, map, All, length, keep,
  is_empty,
}
use solutions_studio.Base.Text.{codes, Text-discrete, has, to_lower}
use solutions_studio.Base.Maps.{get, set}
use solutions_studio.Base.Sets.{add_all}
use solutions_studio.Stories.Create.Samples.{created}
use solutions_studio.Backlog.Types.{BacklogExportMapping}
use solutions_studio.Backlog.Staleness.{
  ExportStalenessClassification, stale, impacted, unexported, EvaluateExportStalenessParams,
}
use solutions_studio.Backlog.Staleness.Propagation.{
  is_affected, propagate_all, visit, sweep, propagate, impact, is_hit, version_changed_prereqs,
}
use solutions_studio.Backlog.Staleness.Report.{
  BaselineExportStalenessReport, mappings_of, direct, evaluate_export_staleness, baseline_report,
  report_stories,
}
use solutions_studio.Backlog.Staleness.Direct.{mapping_by_story_id, evaluate_stories}
use solutions_studio.Backlog.Staleness.Tainted.{Tainted}
use solutions_studio.Backlog.Staleness.Laws.{evaluate_export_staleness-Tainted}
use solutions_studio.Backlog.Staleness.Counts.{asked_for, totals, evaluate_export_staleness_counts}
use solutions_studio.Backlog.Staleness.Explained.{evaluate_export_staleness_explained}

abbrev mapping : String → String → BacklogExportMapping
mapping story hash = record {
  id = codes "m";
  story_id = codes story;
  story_version = 2;
  export_version = 1;
  baseline_id = codes "B";
  requirement_revision_ids = [];
  policy_constraint_revision_ids = none;
  provider = codes "tracker";
  external_container = codes "board";
  external_work_item_id = codes "7";
  external_url = none;
  export_content_hash = codes hash;
  export_content_hash_version = some 1;
  prerequisite_export_versions = none;
  exported_at = codes "then";
  exported_by = codes "a";
  metadata = none;
  history = [];
}

-- "c" depends on "b", "b" on "a", and the export of "a" has another hash.
abbrev params : EvaluateExportStalenessParams
params = record {
  baseline = record {
    id = codes "B";
    requirement_revisions = [];
    policy_constraint_revisions = [];
    created_at = codes "then";
    created_by = codes "a";
  };
  stories =
      created (codes "c") (codes "b" ∷ [])
      ∷ created (codes "b") (codes "a" ∷ [])
      ∷ created (codes "a") []
      ∷ created (codes "n") (codes "a" ∷ [])
      ∷ [];
  mappings = mapping "a" "X" ∷ mapping "b" "H" ∷ mapping "c" "H" ∷ [];
  active_requirement_map = [];
  active_policy_constraint_map = [];
  lookup_requirement_revision = λ _. none;
  lookup_policy_constraint_revision = none;
  compute_story_hash = λ _. codes "h";
  matches_story_hash = none;
  advisory_semantic_impacts = none;
  target_story_ids = none;
}

abbrev classes : Option BaselineExportStalenessReport → List ExportStalenessClassification
classes none = []
classes (some report) = map (λ r. r.classification) report.stories

classes_test :
    classes (evaluate_export_staleness params) ≡ impacted ∷ impacted ∷ stale ∷ unexported ∷ []
unfolding evaluate_export_staleness mapping_by_story_id evaluate_stories propagate_all propagate
    sweep visit is_hit impact get set keep add_all Text-discrete has to_lower
    version_changed_prereqs baseline_report report_stories
classes_test = refl

evaluate_export_staleness-Tainted_example :
    (report : BaselineExportStalenessReport) × (evaluate_export_staleness params ≡ some report)
    × All
        (λ r.
          (is_affected r.classification ≡ true)
          ↔ Tainted (mappings_of params) (direct params) r.story_id)
        report.stories
evaluate_export_staleness-Tainted_example = evaluate_export_staleness-Tainted params

evaluate_export_staleness_counts_example :
    (report : BaselineExportStalenessReport) × (evaluate_export_staleness params ≡ some report)
    × (map (λ r. r.story_id) report.stories ≡ asked_for params)
    × (report.total_stories ≡ length (asked_for params))
    × (record {
      current_ones = report.current_count;
      stale_ones = report.stale_count;
      impacted_ones = report.impacted_count;
      unexported_ones = report.unexported_count;
    }
        ≡ totals (map (λ r. r.classification) report.stories))
    × (report.current_count + report.stale_count + report.impacted_count + report.unexported_count
        ≡ report.total_stories)
evaluate_export_staleness_counts_example = evaluate_export_staleness_counts params

evaluate_export_staleness_explained_example :
    (report : BaselineExportStalenessReport) × (evaluate_export_staleness params ≡ some report)
    × All (λ r. is_empty r.causes ≡ not (is_affected r.classification)) report.stories
evaluate_export_staleness_explained_example = evaluate_export_staleness_explained params
