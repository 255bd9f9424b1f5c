-- ===== src/Backlog/Mapping/Samples.antt =====
-- A mapping in its third version, with the two versions before.
use solutions_studio.Base.{◌≡◌, refl, ◌<◌, none, some, List, [], ◌∷◌, every, keep, length}
use solutions_studio.Base.Text.{Text, codes, trim, to_lower}
use solutions_studio.Base.Numbers.{Number, integer, pos, is_not_positive_integer, to_ℕ}
use solutions_studio.Base.Result.{ok, throw}
use solutions_studio.Ids.{
  assert_non_empty, is_sha256, create_story_id, create_requirements_baseline_id,
  create_requirement_revision_id, create_policy_constraint_revision_id, create_actor_id,
  create_backlog_export_mapping_id,
}
use solutions_studio.Ids.Instant.{create_instant, is_valid_instant}
use solutions_studio.Backlog.Types.{
  BacklogExportHistoryEntry, BacklogExportMapping, CreateBacklogExportMappingParams,
  entries_not_ascending, entry_not_older,
}
use solutions_studio.Backlog.Mapping.{
  mapping_url, version_or_1, requirement_id_of, policy_id_of, prerequisite_version, valid_versions,
  create_history, create_backlog_export_mapping,
}
use solutions_studio.Backlog.Mapping.Laws.{
  IsMapping, create_backlog_export_mapping-IsMapping, length-create_backlog_export_mapping,
}

abbrev hash : Text
hash = codes "00112233445566778899aabbccddeeff00112233445566778899aabbccddeeff"

abbrev upper_hash : Text
upper_hash = codes "00112233445566778899AABBCCDDEEFF00112233445566778899aabbccddeeff"

abbrev moment : Text
moment = codes "2026-01-01T00:00:00Z"

abbrev entry : Number → BacklogExportHistoryEntry
entry version = record {
  export_version = version;
  baseline_id = codes "B";
  story_version = integer (pos 1);
  requirement_revision_ids = codes "R1" ∷ [];
  policy_constraint_revision_ids = none;
  export_content_hash = hash;
  export_content_hash_version = some (integer (pos 1));
  prerequisite_export_versions = none;
  exported_at = moment;
  exported_by = codes "a";
  external_work_item_id = codes "7";
  external_url = none;
  update_rationale = none;
}

abbrev params : List BacklogExportHistoryEntry → CreateBacklogExportMappingParams
params history = record {
  id = codes " m";
  story_id = codes "s";
  story_version = none;
  export_version = some (integer (pos 3));
  baseline_id = codes "B";
  requirement_revision_ids = some (codes "R2" ∷ []);
  policy_constraint_revision_ids = none;
  provider = codes "tracker";
  external_container = codes "board";
  external_work_item_id = codes "7";
  external_url = none;
  export_content_hash = upper_hash;
  export_content_hash_version = none;
  prerequisite_export_versions = some ((codes "d", integer (pos 2)) ∷ []);
  exported_at = moment;
  exported_by = codes "a";
  metadata = none;
  history = some history;
}

abbrev mapping : BacklogExportMapping
mapping = record {
  id = codes "m";
  story_id = codes "s";
  story_version = 1;
  export_version = 3;
  baseline_id = codes "B";
  requirement_revision_ids = codes "R2" ∷ [];
  policy_constraint_revision_ids = none;
  provider = codes "tracker";
  external_container = codes "board";
  external_work_item_id = codes "7";
  external_url = none;
  export_content_hash = hash;
  export_content_hash_version = some 1;
  prerequisite_export_versions = some ((codes "d", 2) ∷ []);
  exported_at = moment;
  exported_by = codes "a";
  metadata = none;
  history = entry (integer (pos 1)) ∷ entry (integer (pos 2)) ∷ [];
}

-- What runs in the tests.
program : Unit {0}
unfolding create_backlog_export_mapping mapping_url version_or_1 requirement_id_of policy_id_of
    prerequisite_version valid_versions create_history create_story_id
    create_requirements_baseline_id create_requirement_revision_id
    create_policy_constraint_revision_id create_actor_id create_backlog_export_mapping_id
    assert_non_empty is_sha256 create_instant is_valid_instant trim to_lower every keep
    is_not_positive_integer to_ℕ
program = tt

mapping_created :
    create_backlog_export_mapping (params (entry (integer (pos 1)) ∷ entry (integer (pos 2)) ∷ []))
    ≡ ok mapping
unfolding program
mapping_created = refl

order_refused :
    create_backlog_export_mapping (params (entry (integer (pos 2)) ∷ entry (integer (pos 1)) ∷ []))
    ≡ throw entries_not_ascending
unfolding program
order_refused = refl

same_version_refused :
    create_backlog_export_mapping (params (entry (integer (pos 3)) ∷ []))
    ≡ throw (entry_not_older 3 3)
unfolding program
same_version_refused = refl

create_backlog_export_mapping-IsMapping_example : IsMapping mapping
create_backlog_export_mapping-IsMapping_example =
    create_backlog_export_mapping-IsMapping
      (params (entry (integer (pos 1)) ∷ entry (integer (pos 2)) ∷ [])) mapping mapping_created

length-create_backlog_export_mapping_example : length mapping.history < mapping.export_version
length-create_backlog_export_mapping_example =
    length-create_backlog_export_mapping
      (params (entry (integer (pos 1)) ∷ entry (integer (pos 2)) ∷ [])) mapping mapping_created
