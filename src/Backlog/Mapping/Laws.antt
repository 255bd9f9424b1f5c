-- ===== src/Backlog/Mapping/Laws.antt =====
-- What `createBacklogExportMapping` guarantees.
use solutions_studio.Base.{
  ℕ, ◌+◌, ◌≤◌, ◌<◌, ◌≡◌, true, false, Option, none, some, List, [], ◌∷◌, arith, All, length,
  value_or,
}
use solutions_studio.Base.Text.{Text, trim, is_blank, to_lower, IsWritten, IsWritten-trim}
use solutions_studio.Base.Numbers.{Number, is_not_positive_integer, to_ℕ, to_ℕ_positive}
use solutions_studio.Base.Maps.{Map}
use solutions_studio.Base.Result.{ok, traverse, traverse_option, traverse-All}
use solutions_studio.Ids.{
  is_sha256, assert_non_empty, create_story_id, create_requirements_baseline_id,
  create_requirement_revision_id, create_policy_constraint_revision_id, create_actor_id,
  create_backlog_export_mapping_id,
}
use solutions_studio.Ids.Laws.{IsDigest, to_lower-IsDigest}
use solutions_studio.Ids.Instant.{is_valid_instant, create_instant}
use solutions_studio.Ids.Instant.Laws.{create_instant-valid}
use solutions_studio.Backlog.Types.{
  BacklogExportHistoryEntry, BacklogExportMapping, CreateBacklogExportMappingParams, BacklogError,
  invalid_story_version, invalid_export_version,
}
use solutions_studio.Backlog.Mapping.{
  lift_id, version_or_1, requirement_id_of, policy_id_of, prerequisite_version, create_entry,
  create_history, create_backlog_export_mapping,
}

-- An entry of the history of a mapping.
pub record IsEntry (e : BacklogExportHistoryEntry) : Type 0 where
  pub numbered : is_not_positive_integer e.export_version ≡ false
  pub story_numbered : is_not_positive_integer e.story_version ≡ false
  pub baseline_id : IsWritten e.baseline_id
  pub hashed : IsDigest e.export_content_hash
  pub exported_at : is_valid_instant e.exported_at ≡ true
  pub exported_by : IsWritten e.exported_by

-- The versions of the entries grow, from above `last` to below `bound`.
abbrev pub IsHistory : (bound last : ℕ) → List BacklogExportHistoryEntry → Type 0
IsHistory bound last [] = Unit
IsHistory bound last (e ∷ es) =
    (last < to_ℕ e.export_version)
    × (to_ℕ e.export_version < bound)
    × IsEntry e
    × IsHistory bound (to_ℕ e.export_version) es

pub record IsMapping (m : BacklogExportMapping) : Type 0 where
  pub id : IsWritten m.id
  pub story_id : IsWritten m.story_id
  pub baseline_id : IsWritten m.baseline_id
  pub provider : IsWritten m.provider
  pub external_container : IsWritten m.external_container
  pub external_work_item_id : IsWritten m.external_work_item_id
  pub hashed : IsDigest m.export_content_hash
  pub exported_at : is_valid_instant m.exported_at ≡ true
  pub exported_by : IsWritten m.exported_by
  pub story_numbered : 1 ≤ m.story_version
  pub numbered : 1 ≤ m.export_version
  pub requirements : All IsWritten m.requirement_revision_ids
  pub policies : All IsWritten (value_or m.policy_constraint_revision_ids [])
  pub prerequisites : All (λ p. 1 ≤ p.1) (value_or m.prerequisite_export_versions [])
  pub history : IsHistory m.export_version 0 m.history

id_written : (t u : Text) → lift_id (create_requirements_baseline_id t) ≡ ok u → IsWritten u
unfolding create_requirements_baseline_id assert_non_empty
id_written t u h = ground (arith, IsWritten-trim t)

actor_written : (t u : Text) → lift_id (create_actor_id t) ≡ ok u → IsWritten u
unfolding create_actor_id assert_non_empty
actor_written t u h = ground (arith, IsWritten-trim t)

instant_valid : (t u : Text) → lift_id (create_instant t) ≡ ok u → is_valid_instant u ≡ true
instant_valid t u h = create_instant-valid t u (ground arith)

-- What went into an entry.
record EntryParts (bound last : ℕ) (a b : BacklogExportHistoryEntry) : Type 0 where
  numbered : is_not_positive_integer b.export_version ≡ false
  kept : b.export_version ≡ a.export_version
  below : to_ℕ b.export_version < bound
  above : last < to_ℕ b.export_version
  story_numbered : is_not_positive_integer b.story_version ≡ false
  hash_given : is_sha256 a.export_content_hash ≡ true
  hash : b.export_content_hash ≡ to_lower a.export_content_hash
  baseline_id : lift_id (create_requirements_baseline_id a.baseline_id) ≡ ok b.baseline_id
  exported_at : lift_id (create_instant a.exported_at) ≡ ok b.exported_at
  exported_by : lift_id (create_actor_id a.exported_by) ≡ ok b.exported_by

entry_parts :
    (bound last : ℕ) (a b : BacklogExportHistoryEntry)
    → create_entry bound last a ≡ ok b
    → EntryParts bound last a b
unfolding create_entry
entry_parts bound last a b h = ground arith

EntryParts-IsEntry :
    (bound last : ℕ) (a b : BacklogExportHistoryEntry) → EntryParts bound last a b → IsEntry b
EntryParts-IsEntry bound last a b p = record {
  numbered = p.numbered;
  story_numbered = p.story_numbered;
  baseline_id = id_written a.baseline_id b.baseline_id p.baseline_id;
  hashed = rw p.hash (to_lower-IsDigest a.export_content_hash p.hash_given);
  exported_at = instant_valid a.exported_at b.exported_at p.exported_at;
  exported_by = actor_written a.exported_by b.exported_by p.exported_by;
}

history_parts :
    (bound last : ℕ) (a b : BacklogExportHistoryEntry) (as_ bs : List BacklogExportHistoryEntry)
    → create_history bound last (a ∷ as_) ≡ ok (b ∷ bs)
    → (create_entry bound last a ≡ ok b)
      × (create_history bound (to_ℕ a.export_version) as_ ≡ ok bs)
unfolding create_history
history_parts bound last a b as_ bs h = ground arith

create_history-IsHistory :
    (bound last : ℕ) (as_ bs : List BacklogExportHistoryEntry)
    → create_history bound last as_ ≡ ok bs
    → IsHistory bound last bs
create_history-IsHistory bound last as_ [] h = tt
create_history-IsHistory bound last [] (b ∷ bs) h = absurd (unfold create_history in ground arith)
create_history-IsHistory bound last (a ∷ as_) (b ∷ bs) h =
    let (first, others) = history_parts bound last a b as_ bs h in
    let p = entry_parts bound last a b first in
    (
      p.above,
      p.below,
      EntryParts-IsEntry bound last a b p,
      rw p.kept (create_history-IsHistory bound (to_ℕ a.export_version) as_ bs others),
    )

requirement_lem : (a b : Text) → requirement_id_of a ≡ ok b → IsWritten b
unfolding requirement_id_of create_requirement_revision_id assert_non_empty
requirement_lem a b h = ground (arith, IsWritten-trim a)

policy_lem : (a b : Text) → policy_id_of a ≡ ok b → IsWritten b
unfolding policy_id_of create_policy_constraint_revision_id assert_non_empty
policy_lem a b h = ground (arith, IsWritten-trim a)

prerequisite_lem : (a : Text × Number) (b : Text × ℕ) → prerequisite_version a ≡ ok b → 1 ≤ b.1
unfolding prerequisite_version
prerequisite_lem a b h = ground (arith, to_ℕ_positive a.1)

version_lem : (n : Option Number) (e : BacklogError) (v : ℕ) → version_or_1 n e ≡ ok v → 1 ≤ v
unfolding version_or_1
version_lem none e v h = ground arith
version_lem (some n) e v h = ground (arith, to_ℕ_positive n)

prerequisites_lem :
    (a : Option (Map Number)) (b : Option (Map ℕ))
    → traverse_option prerequisite_version a ≡ ok b
    → All (λ p. 1 ≤ p.1) (value_or b [])
prerequisites_lem a none h = tt
prerequisites_lem none (some ps) h = absurd (ground arith)
prerequisites_lem (some m) (some ps) h =
    let all =
      traverse-All prerequisite_version (λ p. 1 ≤ p.1) prerequisite_lem m ps (ground arith) in
    all.0

policies_lem :
    (a b : Option (List Text))
    → traverse_option policy_id_of a ≡ ok b
    → All IsWritten (value_or b [])
policies_lem a none h = tt
policies_lem none (some ps) h = absurd (ground arith)
policies_lem (some m) (some ps) h =
    let all = traverse-All policy_id_of IsWritten policy_lem m ps (ground arith) in all.0

-- What went into a mapping.
record MappingParts (params : CreateBacklogExportMappingParams) (m : BacklogExportMapping)
    : Type 0 where
  identified : is_blank params.id ≡ false
  id : m.id ≡ trim params.id
  story_given : is_blank params.story_id ≡ false
  story_id : m.story_id ≡ trim params.story_id
  baseline_id : lift_id (create_requirements_baseline_id params.baseline_id) ≡ ok m.baseline_id
  provider_given : is_blank params.provider ≡ false
  provider : m.provider ≡ trim params.provider
  container_given : is_blank params.external_container ≡ false
  container : m.external_container ≡ trim params.external_container
  item_given : is_blank params.external_work_item_id ≡ false
  item : m.external_work_item_id ≡ trim params.external_work_item_id
  hash_given : is_sha256 params.export_content_hash ≡ true
  hash : m.export_content_hash ≡ to_lower params.export_content_hash
  exported_at : lift_id (create_instant params.exported_at) ≡ ok m.exported_at
  exported_by : lift_id (create_actor_id params.exported_by) ≡ ok m.exported_by
  story_version : version_or_1 params.story_version invalid_story_version ≡ ok m.story_version
  export_version : version_or_1 params.export_version invalid_export_version ≡ ok m.export_version
  requirements :
      traverse requirement_id_of (value_or params.requirement_revision_ids [])
      ≡ ok m.requirement_revision_ids
  policies :
      traverse_option policy_id_of params.policy_constraint_revision_ids
      ≡ ok m.policy_constraint_revision_ids
  prerequisites :
      traverse_option prerequisite_version params.prerequisite_export_versions
      ≡ ok m.prerequisite_export_versions
  history : create_history m.export_version 0 (value_or params.history []) ≡ ok m.history

mapping_parts :
    (params : CreateBacklogExportMappingParams) (m : BacklogExportMapping)
    → create_backlog_export_mapping params ≡ ok m
    → MappingParts params m
unfolding create_backlog_export_mapping create_backlog_export_mapping_id create_story_id
    assert_non_empty
mapping_parts params m h = ground arith

-- A mapping that is created has trimmed, non-empty identifiers, a lower-case SHA-256, an instant and
-- positive versions, and its history is in the order of versions that are all older than its own.
pub create_backlog_export_mapping-IsMapping :
    (params : CreateBacklogExportMappingParams) (m : BacklogExportMapping)
    → create_backlog_export_mapping params ≡ ok m
    → IsMapping m
create_backlog_export_mapping-IsMapping params m h =
    let p = mapping_parts params m h in
    let (requirements, count) =
      traverse-All requirement_id_of IsWritten requirement_lem
        (value_or params.requirement_revision_ids []) m.requirement_revision_ids p.requirements in
    record {
      id = rw p.id (IsWritten-trim params.id p.identified);
      story_id = rw p.story_id (IsWritten-trim params.story_id p.story_given);
      baseline_id = id_written params.baseline_id m.baseline_id p.baseline_id;
      provider = rw p.provider (IsWritten-trim params.provider p.provider_given);
      external_container =
          rw p.container (IsWritten-trim params.external_container p.container_given);
      external_work_item_id = rw p.item (IsWritten-trim params.external_work_item_id p.item_given);
      hashed = rw p.hash (to_lower-IsDigest params.export_content_hash p.hash_given);
      exported_at = instant_valid params.exported_at m.exported_at p.exported_at;
      exported_by = actor_written params.exported_by m.exported_by p.exported_by;
      story_numbered =
          version_lem params.story_version invalid_story_version m.story_version p.story_version;
      numbered =
          version_lem params.export_version invalid_export_version m.export_version
            p.export_version;
      requirements = requirements;
      policies =
          policies_lem params.policy_constraint_revision_ids m.policy_constraint_revision_ids
            p.policies;
      prerequisites =
          prerequisites_lem params.prerequisite_export_versions m.prerequisite_export_versions
            p.prerequisites;
      history =
          create_history-IsHistory m.export_version 0 (value_or params.history []) m.history
            p.history;
    }

-- Each entry takes a version of its own between two bounds.
length-IsHistory :
    (bound last : ℕ) (es : List BacklogExportHistoryEntry)
    → IsHistory bound last es
    → last < bound
    → length es + last < bound
length-IsHistory bound last [] h b = omega arith
length-IsHistory bound last (e ∷ es) (above, below, _, others) b =
    let rest = length-IsHistory bound (to_ℕ e.export_version) es others below in omega arith

-- A mapping that is created has fewer entries in its history than its export version says, so none for
-- the first version.
pub length-create_backlog_export_mapping :
    (params : CreateBacklogExportMappingParams) (m : BacklogExportMapping)
    → create_backlog_export_mapping params ≡ ok m
    → length m.history < m.export_version
length-create_backlog_export_mapping params m h =
    let w = create_backlog_export_mapping-IsMapping params m h in
    let bound = length-IsHistory m.export_version 0 m.history w.history w.numbered in omega arith
