-- ===== src/Backlog/Staleness/Propagation.antt =====
-- The second pass of ExportStaleness.ts: exports become impacted through the dependencies of their
-- stories, round by round, until a round changes nothing.
use solutions_studio.Base.{
  ℕ, zero, suc, Bool, true, false, not, ◌&&◌, ◌||◌, Option, none, some, List, [], ◌∷◌, ◌++◌, map,
  length, is_empty, keep, ltb, if◌then◌else◌,
}
use solutions_studio.Base.Text.{Text}
use solutions_studio.Base.Numbers.{decimal}
use solutions_studio.Base.Maps.{Map, get, set, keys}
use solutions_studio.Base.Sets.{add_all}
use solutions_studio.Stories.Types.{Story, deps}
use solutions_studio.Backlog.Types.{BacklogExportMapping}
use solutions_studio.Backlog.Staleness.{
  ExportStalenessClassification, current, stale, impacted, StalenessCause, prerequisite_stale,
  prerequisite_version_superseded, MutableStoryEvaluation,
}

abbrev pub is_current : ExportStalenessClassification → Bool
is_current current = true
is_current _ = false

-- `=== 'STALE' || === 'IMPACTED'`.
abbrev pub is_affected : ExportStalenessClassification → Bool
is_affected stale = true
is_affected impacted = true
is_affected _ = false

-- `depEv && (...)`.
abbrev pub is_affected_evaluation : Option MutableStoryEvaluation → Bool
is_affected_evaluation none = false
is_affected_evaluation (some ev) = is_affected ev.classification

abbrev pub stale_prereqs : Map MutableStoryEvaluation → List Text → List Text
stale_prereqs evaluations dependencies =
    keep (λ d. is_affected_evaluation (get d evaluations)) dependencies

pub record VersionChange : Type 0 where
  pub dep_id : Text
  pub recorded_version : ℕ
  pub current_version : ℕ

-- The prerequisite was exported again after the version that the mapping recorded.
unfoldable pub version_change :
    (recorded : Option ℕ) → Option BacklogExportMapping → Text → List VersionChange
version_change none m d = []
version_change (some recorded) none d = []
version_change (some recorded) (some m) d =
    if ltb recorded m.export_version
    then record { dep_id = d; recorded_version = recorded; current_version = m.export_version } ∷ []
    else []

unfoldable pub version_changes : Map BacklogExportMapping → Map ℕ → List Text → List VersionChange
unfolding version_change
version_changes mappings recorded [] = []
version_changes mappings recorded (d ∷ ds) =
    version_change (get d recorded) (get d mappings) d ++ version_changes mappings recorded ds

-- `versionChangedPrereqs`, for a mapping that may not record its prerequisites.
unfoldable pub version_changed_prereqs : Map BacklogExportMapping → Story → List VersionChange
unfolding version_changes
version_changed_prereqs mappings story = elim (get story.id mappings) [
  | none ↦ []
  | some m ↦ elim m.prerequisite_export_versions [
    | none ↦ []
    | some recorded ↦ version_changes mappings recorded (deps story)
  ]
]

abbrev pub stale_cause : Text → StalenessCause
stale_cause d = record {
  category = prerequisite_stale;
  entity_id = d;
  exported_revision = none;
  current_revision = none;
}

abbrev pub version_cause : VersionChange → StalenessCause
version_cause c = record {
  category = prerequisite_version_superseded;
  entity_id = c.dep_id;
  exported_revision = some (b'v' ∷ decimal c.recorded_version);
  current_revision = some (b'v' ∷ decimal c.current_version);
}

-- What is written to an evaluation that becomes impacted.
unfoldable pub impact :
    List Text → List VersionChange → MutableStoryEvaluation → MutableStoryEvaluation
impact stales changes ev = record {
  story = ev.story;
  classification = impacted;
  causes = ev.causes ++ (map stale_cause stales ++ map version_cause changes);
  exported_lineage = ev.exported_lineage;
  impacted_by_prerequisite_story_ids =
      add_all (map (λ c. c.dep_id) changes) (add_all stales ev.impacted_by_prerequisite_story_ids);
  current_content_hash = ev.current_content_hash;
}

-- A prerequisite is stale, impacted or exported again.
unfoldable pub is_hit :
    Map BacklogExportMapping → Map MutableStoryEvaluation → MutableStoryEvaluation → Bool
is_hit mappings evaluations ev =
    is_current ev.classification
    && (not (is_empty (stale_prereqs evaluations (deps ev.story)))
        || not (is_empty (version_changed_prereqs mappings ev.story)))

-- The body of the loop: the evaluations after it, and whether it changed one.
unfoldable pub visit :
    Map BacklogExportMapping → Text → Map MutableStoryEvaluation → Map MutableStoryEvaluation × Bool
visit mappings id evaluations = elim (get id evaluations) [
  | none ↦ (evaluations, false)
  | some ev ↦
      if is_hit mappings evaluations ev
      then (
        set id
            (impact (stale_prereqs evaluations (deps ev.story))
              (version_changed_prereqs mappings ev.story) ev)
            evaluations,
        true,
      )
      else (evaluations, false)
]

-- The loop over the entries, with `changed` so far.
unfoldable pub sweep :
    Map BacklogExportMapping
    → List Text
    → Map MutableStoryEvaluation
    → Bool
    → Map MutableStoryEvaluation × Bool
sweep mappings [] evaluations changed = (evaluations, changed)
sweep mappings (id ∷ ids) evaluations changed =
    let (visited, hit) = visit mappings id evaluations in
    sweep mappings ids visited (changed || hit)

-- `while (changed)`, with `fuel` rounds at most.
unfoldable pub propagate :
    Map BacklogExportMapping
    → (fuel : ℕ) → Map MutableStoryEvaluation
    → Option (Map MutableStoryEvaluation)
propagate mappings zero evaluations = none
propagate mappings (suc fuel) evaluations =
    let (swept, changed) = sweep mappings (keys evaluations) evaluations false in
    let rest = propagate mappings fuel swept in if changed then rest else some swept

-- A round that changes something takes a story out of those that are current, so there are at most
-- as many such rounds as stories, and one more.
unfoldable pub propagate_all :
    Map BacklogExportMapping → Map MutableStoryEvaluation → Option (Map MutableStoryEvaluation)
propagate_all mappings evaluations = propagate mappings (suc (length evaluations)) evaluations
