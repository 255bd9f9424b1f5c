-- ===== src/Backlog/Staleness/Direct.antt =====
-- The first pass of ExportStaleness.ts, which finds what makes an export stale by itself.
use solutions_studio.Base.{
  Bool, Option, none, some, List, [], ◌∷◌, ◌++◌, is_empty, ltb, value_or, if◌then◌else◌,
}
use solutions_studio.Base.Text.{Text, same, to_lower}
use solutions_studio.Base.Numbers.{decimal}
use solutions_studio.Base.Maps.{Map, get, set}
use solutions_studio.Stories.Types.{Story}
use solutions_studio.Backlog.Types.{BacklogExportMapping}
use solutions_studio.Backlog.Staleness.{
  current, stale, unexported, StalenessCauseCategory, requirement_revision_superseded,
  requirement_removed_from_baseline, policy_constraint_superseded,
  policy_constraint_removed_from_baseline, story_version_superseded, content_hash_mismatch,
  StalenessCause, ExportedStoryLineage, PolicyConstraintRevisionInfo, EvaluateExportStalenessParams,
  MutableStoryEvaluation,
}

-- `mappingByStoryId`: the last mapping of a story counts.
unfoldable pub mapping_by_story_id :
    List BacklogExportMapping → Map BacklogExportMapping → Map BacklogExportMapping
mapping_by_story_id [] known = known
mapping_by_story_id (m ∷ ms) known = mapping_by_story_id ms (set m.story_id m known)

unfoldable pub version_causes : Story → BacklogExportMapping → List StalenessCause
version_causes story mapping = elim story.version [
  | none ↦ []
  | some v ↦
      if ltb mapping.story_version v
      then record {
        category = story_version_superseded;
        entity_id = story.id;
        exported_revision = some (decimal mapping.story_version);
        current_revision = some (decimal v);
      }
        ∷ []
      else []
]

unfoldable pub is_hash_matched : EvaluateExportStalenessParams → BacklogExportMapping → Story → Bool
is_hash_matched params mapping story = elim params.matches_story_hash [
  | none ↦ same (to_lower mapping.export_content_hash) (to_lower (params.compute_story_hash story))
  | some matches ↦ matches mapping story
]

unfoldable pub hash_causes :
    EvaluateExportStalenessParams → Story → BacklogExportMapping → List StalenessCause
unfolding is_hash_matched
hash_causes params story mapping =
    if is_hash_matched params mapping story
    then []
    else record {
      category = content_hash_mismatch;
      entity_id = story.id;
      exported_revision = some mapping.export_content_hash;
      current_revision = some (params.compute_story_hash story);
    }
      ∷ []

-- The body that the loops over exported revisions share: an entity that is gone, or has another
-- active revision.
unfoldable pub revision_causes :
    (removed superseded : StalenessCauseCategory) (entity_id : Text) (active : Option Text)
    (exported : Text)
    → List StalenessCause
revision_causes removed superseded entity_id none exported =
    record {
      category = removed;
      entity_id = entity_id;
      exported_revision = some exported;
      current_revision = none;
    }
    ∷ []
revision_causes removed superseded entity_id (some active) exported =
    if same active exported
    then []
    else record {
      category = superseded;
      entity_id = entity_id;
      exported_revision = some exported;
      current_revision = some active;
    }
      ∷ []

unfoldable pub requirement_causes : EvaluateExportStalenessParams → List Text → List StalenessCause
unfolding revision_causes
requirement_causes params [] = []
requirement_causes params (exported ∷ others) =
    let requirement_id : Text = elim (params.lookup_requirement_revision exported) [
      | none ↦ exported
      | some info ↦ info.requirement_id
    ] in
    revision_causes requirement_removed_from_baseline requirement_revision_superseded requirement_id
      (get requirement_id params.active_requirement_map) exported
    ++ requirement_causes params others

abbrev pub look_up_policy :
    Option (Text → Option PolicyConstraintRevisionInfo) → Text → Option PolicyConstraintRevisionInfo
look_up_policy none id = none
look_up_policy (some lookup) id = lookup id

unfoldable pub policy_causes : EvaluateExportStalenessParams → List Text → List StalenessCause
unfolding revision_causes
policy_causes params [] = []
policy_causes params (exported ∷ others) =
    let policy_id : Text = elim (look_up_policy params.lookup_policy_constraint_revision exported) [
      | none ↦ exported
      | some info ↦ info.policy_constraint_id
    ] in
    revision_causes policy_constraint_removed_from_baseline policy_constraint_superseded policy_id
      (get policy_id params.active_policy_constraint_map) exported
    ++ policy_causes params others

-- The four groups of causes that a mapping gives.
unfoldable pub direct_causes :
    EvaluateExportStalenessParams → Story → BacklogExportMapping → List StalenessCause
unfolding version_causes hash_causes requirement_causes policy_causes
direct_causes params story mapping =
    version_causes story mapping
    ++ (hash_causes params story mapping
        ++ (requirement_causes params mapping.requirement_revision_ids
            ++ policy_causes params (value_or mapping.policy_constraint_revision_ids [])))

unfoldable pub lineage_of : BacklogExportMapping → ExportedStoryLineage
lineage_of m = record {
  baseline_id = m.baseline_id;
  story_version = m.story_version;
  export_version = m.export_version;
  export_content_hash = m.export_content_hash;
  export_content_hash_version = m.export_content_hash_version;
  prerequisite_export_versions = m.prerequisite_export_versions;
  exported_at = m.exported_at;
  external_work_item_id = m.external_work_item_id;
  external_url = m.external_url;
}

-- The body of the first loop, for the mapping that is known of the story.
unfoldable pub evaluate_directly :
    EvaluateExportStalenessParams → Option BacklogExportMapping → Story → MutableStoryEvaluation
unfolding direct_causes lineage_of
evaluate_directly params none story = record {
  story = story;
  classification = unexported;
  causes = [];
  exported_lineage = none;
  impacted_by_prerequisite_story_ids = [];
  current_content_hash = params.compute_story_hash story;
}
evaluate_directly params (some mapping) story =
    let causes = direct_causes params story mapping in
    record {
      story = story;
      classification = if is_empty causes then current else stale;
      causes = causes;
      exported_lineage = some (lineage_of mapping);
      impacted_by_prerequisite_story_ids = [];
      current_content_hash = params.compute_story_hash story;
    }

-- `evaluations` after the first pass.
unfoldable pub evaluate_stories :
    EvaluateExportStalenessParams
    → Map BacklogExportMapping
    → List Story
    → Map MutableStoryEvaluation
    → Map MutableStoryEvaluation
unfolding evaluate_directly
evaluate_stories params mappings [] evaluations = evaluations
evaluate_stories params mappings (s ∷ ss) evaluations =
    evaluate_stories params mappings ss
      (set s.id (evaluate_directly params (get s.id mappings) s) evaluations)
