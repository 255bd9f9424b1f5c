-- ===== src/Backlog/Types.antt =====
-- The data of packages/domain/src/backlog/BacklogExportMapping.ts. A `Record<string, number>` is the
-- list of its entries as `Object.entries` gives them.
use solutions_studio.Base.{ℕ, Option, List}
use solutions_studio.Base.Text.{Text}
use solutions_studio.Base.Numbers.{Number}
use solutions_studio.Base.Maps.{Map}
use solutions_studio.Ids.{IdError}

-- The numbers of an entry are those of the argument, which has the same type.
pub record BacklogExportHistoryEntry : Type 0 where
  pub export_version : Number
  pub baseline_id : Text
  pub story_version : Number
  pub requirement_revision_ids : List Text
  pub policy_constraint_revision_ids : Option (List Text)
  pub export_content_hash : Text
  pub export_content_hash_version : Option Number
  pub prerequisite_export_versions : Option (Map Number)
  pub exported_at : Text
  pub exported_by : Text
  pub external_work_item_id : Text
  pub external_url : Option Text
  pub update_rationale : Option Text

-- The values of `metadata` are unknown to the code; a text stands for each.
pub record BacklogExportMapping : Type 0 where
  pub id : Text
  pub story_id : Text
  pub story_version : ℕ
  pub export_version : ℕ
  pub baseline_id : Text
  pub requirement_revision_ids : List Text
  pub policy_constraint_revision_ids : Option (List Text)
  pub provider : Text
  pub external_container : Text
  pub external_work_item_id : Text
  pub external_url : Option Text
  pub export_content_hash : Text
  pub export_content_hash_version : Option ℕ
  pub prerequisite_export_versions : Option (Map ℕ)
  pub exported_at : Text
  pub exported_by : Text
  pub metadata : Option (Map Text)
  pub history : List BacklogExportHistoryEntry

pub record CreateBacklogExportMappingParams : Type 0 where
  pub id : Text
  pub story_id : Text
  pub story_version : Option Number
  pub export_version : Option Number
  pub baseline_id : Text
  pub requirement_revision_ids : Option (List Text)
  pub policy_constraint_revision_ids : Option (List Text)
  pub provider : Text
  pub external_container : Text
  pub external_work_item_id : Text
  pub external_url : Option Text
  pub export_content_hash : Text
  pub export_content_hash_version : Option Number
  pub prerequisite_export_versions : Option (Map Number)
  pub exported_at : Text
  pub exported_by : Text
  pub metadata : Option (Map Text)
  pub history : Option (List BacklogExportHistoryEntry)

-- The reasons of an `InvalidBacklogMappingError`, and the errors of the identifiers.
pub data BacklogError : Type 0 where
  id_required story_id_required baseline_id_required provider_required : BacklogError
  external_container_required external_work_item_id_required : BacklogError
  external_url_blank exported_at_required exported_by_required : BacklogError
  invalid_content_hash : Text → BacklogError
  invalid_story_version invalid_export_version : BacklogError
  empty_requirement_revision empty_policy_constraint_revision : BacklogError
  invalid_content_hash_version : BacklogError
  invalid_prerequisite_version : Text → BacklogError
  invalid_entry_export_version : BacklogError
  entry_not_older : (entry mapping : ℕ) → BacklogError
  entries_not_ascending entry_baseline_id_required invalid_entry_story_version : BacklogError
  invalid_entry_content_hash entry_exported_at_required entry_exported_by_required : BacklogError
  entry_external_work_item_id_required : BacklogError
  invalid_id : IdError → BacklogError
