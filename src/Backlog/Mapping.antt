-- ===== src/Backlog/Mapping.antt =====
-- `createBacklogExportMapping` of packages/domain/src/backlog/BacklogExportMapping.ts. The tests of the
-- JavaScript types are settled by the types here.
pub mod Laws
mod Samples
use solutions_studio.Base.{
  ℕ, Bool, true, false, not, ◌||◌, Option, none, some, List, [], ◌∷◌, is_empty, keep, ltb, leb,
  value_or,
}
use solutions_studio.Base.Text.{Text, trim, to_lower, is_blank}
use solutions_studio.Base.Numbers.{Number, integer, pos, is_not_positive_integer, to_ℕ}
use solutions_studio.Base.Maps.{Map}
use solutions_studio.Base.Result.{
  Result, ok, throw, ◌>>=◌, ◌>>◌, throw_if, traverse, traverse_option,
}
use solutions_studio.Ids.{
  IdError, is_sha256, create_story_id, create_requirements_baseline_id,
  create_requirement_revision_id, create_policy_constraint_revision_id, create_actor_id,
  create_backlog_export_mapping_id,
}
use solutions_studio.Ids.Instant.{create_instant}
use solutions_studio.Backlog.Types.{
  BacklogExportHistoryEntry, BacklogExportMapping, CreateBacklogExportMappingParams, BacklogError,
  id_required, story_id_required, baseline_id_required, provider_required,
  external_container_required, external_work_item_id_required, external_url_blank,
  exported_at_required, exported_by_required, invalid_content_hash, invalid_story_version,
  invalid_export_version, empty_requirement_revision, empty_policy_constraint_revision,
  invalid_content_hash_version, invalid_prerequisite_version, invalid_entry_export_version,
  entry_not_older, entries_not_ascending, entry_baseline_id_required, invalid_entry_story_version,
  invalid_entry_content_hash, entry_exported_at_required, entry_exported_by_required,
  entry_external_work_item_id_required, invalid_id,
}

abbrev pub lift_id : Result IdError Text → Result BacklogError Text
lift_id (ok a) = ok a
lift_id (throw e) = throw (invalid_id e)

unfoldable pub mapping_url : Option Text → Result BacklogError (Option Text)
mapping_url none = ok none
mapping_url (some url) = do throw_if (is_blank url) external_url_blank; ok (some (trim url))

-- A version that is given, or 1.
unfoldable pub version_or_1 : Option Number → BacklogError → Result BacklogError ℕ
version_or_1 none e = ok 1
version_or_1 (some n) e = do throw_if (is_not_positive_integer n) e; ok (to_ℕ n)

unfoldable pub requirement_id_of : Text → Result BacklogError Text
requirement_id_of rid = do
  throw_if (is_blank rid) empty_requirement_revision
  lift_id (create_requirement_revision_id rid)

unfoldable pub policy_id_of : Text → Result BacklogError Text
policy_id_of pid = do
  throw_if (is_blank pid) empty_policy_constraint_revision
  lift_id (create_policy_constraint_revision_id pid)

unfoldable pub prerequisite_version : Text × Number → Result BacklogError (Text × ℕ)
prerequisite_version (key, val) = do
  throw_if (is_not_positive_integer val) (invalid_prerequisite_version key)
  ok (key, to_ℕ val)

-- The prerequisites of an entry whose versions are positive integers; the others are dropped.
unfoldable pub valid_versions : Option (Map Number) → Option (Map Number)
valid_versions none = none
valid_versions (some m) = some (keep (λ e. not (is_not_positive_integer e.1)) m)

-- `url?.trim()`.
abbrev pub trim_option : Option Text → Option Text
trim_option none = none
trim_option (some t) = some (trim t)

-- The checks of an entry of the history, and its copy.
unfoldable pub create_entry :
    (export_version last_version : ℕ)
    → BacklogExportHistoryEntry
    → Result BacklogError BacklogExportHistoryEntry
create_entry export_version last_version entry = do
  throw_if (is_not_positive_integer entry.export_version) invalid_entry_export_version
  throw_if (leb export_version (to_ℕ entry.export_version))
      (entry_not_older (to_ℕ entry.export_version) export_version)
  throw_if (leb (to_ℕ entry.export_version) last_version) entries_not_ascending
  throw_if (is_empty entry.baseline_id) entry_baseline_id_required
  throw_if (is_not_positive_integer entry.story_version) invalid_entry_story_version
  throw_if (not (is_sha256 entry.export_content_hash)) invalid_entry_content_hash
  throw_if (is_empty entry.exported_at) entry_exported_at_required
  throw_if (is_empty entry.exported_by) entry_exported_by_required
  throw_if (is_empty entry.external_work_item_id) entry_external_work_item_id_required
  baseline_id ← lift_id (create_requirements_baseline_id entry.baseline_id)
  requirement_revision_ids ←
      traverse (λ r. lift_id (create_requirement_revision_id r)) entry.requirement_revision_ids
  policy_constraint_revision_ids ←
      traverse_option (λ p. lift_id (create_policy_constraint_revision_id p))
        entry.policy_constraint_revision_ids
  exported_at ← lift_id (create_instant entry.exported_at)
  exported_by ← lift_id (create_actor_id entry.exported_by)
  ok (record {
    export_version = entry.export_version;
    baseline_id = baseline_id;
    story_version = entry.story_version;
    requirement_revision_ids = requirement_revision_ids;
    policy_constraint_revision_ids = policy_constraint_revision_ids;
    export_content_hash = to_lower entry.export_content_hash;
    export_content_hash_version =
        some (value_or entry.export_content_hash_version (integer (pos 1)));
    prerequisite_export_versions = valid_versions entry.prerequisite_export_versions;
    exported_at = exported_at;
    exported_by = exported_by;
    external_work_item_id = trim entry.external_work_item_id;
    external_url = trim_option entry.external_url;
    update_rationale = entry.update_rationale;
  })

-- The loop over the history, with the version of the entry before.
unfoldable pub create_history :
    (export_version last_version : ℕ)
    → List BacklogExportHistoryEntry
    → Result BacklogError (List BacklogExportHistoryEntry)
unfolding create_entry
create_history export_version last_version [] = ok []
create_history export_version last_version (entry ∷ entries) = do
  created ← create_entry export_version last_version entry
  others ← create_history export_version (to_ℕ entry.export_version) entries
  ok (created ∷ others)

unfoldable pub create_backlog_export_mapping :
    CreateBacklogExportMappingParams → Result BacklogError BacklogExportMapping
create_backlog_export_mapping params = do
  throw_if (is_blank params.id) id_required
  id ← lift_id (create_backlog_export_mapping_id params.id)
  throw_if (is_blank params.story_id) story_id_required
  story_id ← lift_id (create_story_id params.story_id)
  throw_if (is_blank params.baseline_id) baseline_id_required
  baseline_id ← lift_id (create_requirements_baseline_id params.baseline_id)
  throw_if (is_blank params.provider) provider_required
  throw_if (is_blank params.external_container) external_container_required
  throw_if (is_blank params.external_work_item_id) external_work_item_id_required
  external_url ← mapping_url params.external_url
  throw_if (not (is_sha256 params.export_content_hash))
      (invalid_content_hash params.export_content_hash)
  throw_if (is_empty params.exported_at) exported_at_required
  exported_at ← lift_id (create_instant params.exported_at)
  throw_if (is_blank params.exported_by) exported_by_required
  exported_by ← lift_id (create_actor_id params.exported_by)
  story_version ← version_or_1 params.story_version invalid_story_version
  export_version ← version_or_1 params.export_version invalid_export_version
  req_ids ← traverse requirement_id_of (value_or params.requirement_revision_ids [])
  pol_ids ← traverse_option policy_id_of params.policy_constraint_revision_ids
  hash_version ← version_or_1 params.export_content_hash_version invalid_content_hash_version
  prerequisites ← traverse_option prerequisite_version params.prerequisite_export_versions
  history ← create_history export_version 0 (value_or params.history [])
  ok (record {
    id = id;
    story_id = story_id;
    story_version = story_version;
    export_version = export_version;
    baseline_id = baseline_id;
    requirement_revision_ids = req_ids;
    policy_constraint_revision_ids = pol_ids;
    provider = trim params.provider;
    external_container = trim params.external_container;
    external_work_item_id = trim params.external_work_item_id;
    external_url = external_url;
    export_content_hash = to_lower params.export_content_hash;
    export_content_hash_version = some hash_version;
    prerequisite_export_versions = prerequisites;
    exported_at = exported_at;
    exported_by = exported_by;
    metadata = params.metadata;
    history = history;
  })
