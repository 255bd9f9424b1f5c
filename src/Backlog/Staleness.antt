-- ===== src/Backlog/Staleness.antt =====
-- The data of packages/domain/src/backlog/ExportStaleness.ts. The functions among the parameters are fields of them. A cause is kept
-- without its message, which is a rendering of what the cause holds. `dependencyGraph`, which the
-- function never reads, is left out.
pub mod Direct
pub mod Propagation
pub mod Report
pub mod Tainted
mod Completeness
mod Start
mod Rounds
pub mod Explained
pub mod Counts
pub mod Laws
mod Samples
use solutions_studio.Base.{
  ℕ, Bool, true, false, not, Option, none, some, List, [], ◌∷◌, ◌++◌, is_empty, ltb, value_or,
  if◌then◌else◌,
}
use solutions_studio.Base.Text.{Text, same, to_lower}
use solutions_studio.Base.Numbers.{decimal}
use solutions_studio.Base.Maps.{Map, get, set}
use solutions_studio.Requirements.Types.{RequirementsBaseline}
use solutions_studio.Stories.Types.{Story}
use solutions_studio.Backlog.Types.{BacklogExportMapping, BacklogExportHistoryEntry}

pub data ExportStalenessClassification : Type 0 where
  current stale impacted unexported : ExportStalenessClassification

pub data StalenessCauseCategory : Type 0 where
  baseline_superseded requirement_revision_superseded : StalenessCauseCategory
  requirement_removed_from_baseline policy_constraint_superseded : StalenessCauseCategory
  policy_constraint_removed_from_baseline story_version_superseded : StalenessCauseCategory
  content_hash_mismatch prerequisite_stale prerequisite_version_superseded : StalenessCauseCategory

pub record StalenessCause : Type 0 where
  pub category : StalenessCauseCategory
  pub entity_id : Text
  pub exported_revision : Option Text
  pub current_revision : Option Text

pub record ExportedStoryLineage : Type 0 where
  pub baseline_id : Text
  pub story_version : ℕ
  pub export_version : ℕ
  pub export_content_hash : Text
  pub export_content_hash_version : Option ℕ
  pub prerequisite_export_versions : Option (Map ℕ)
  pub exported_at : Text
  pub external_work_item_id : Text
  pub external_url : Option Text

pub data SemanticRiskLevel : Type 0 where
  low medium high : SemanticRiskLevel

pub record AdvisorySemanticImpactResult : Type 0 where
  pub story_id : Text
  pub semantic_risk_level : SemanticRiskLevel
  pub reasoning : Text
  pub suggested_actions : List Text
  pub model_assisted : Bool

pub record RequirementRevisionInfo : Type 0 where
  pub requirement_id : Text
  pub revision : ℕ
  pub supersedes : Option Text

pub record PolicyConstraintRevisionInfo : Type 0 where
  pub policy_constraint_id : Text
  pub revision : ℕ

pub record EvaluateExportStalenessParams : Type 0 where
  pub baseline : RequirementsBaseline
  pub stories : List Story
  pub mappings : List BacklogExportMapping
  pub active_requirement_map : Map Text
  pub active_policy_constraint_map : Map Text
  pub lookup_requirement_revision : Text → Option RequirementRevisionInfo
  pub lookup_policy_constraint_revision : Option (Text → Option PolicyConstraintRevisionInfo)
  pub compute_story_hash : Story → Text
  pub matches_story_hash : Option (BacklogExportMapping → Story → Bool)
  pub advisory_semantic_impacts : Option (Map AdvisorySemanticImpactResult)
  pub target_story_ids : Option (List Text)

pub record MutableStoryEvaluation : Type 0 where
  pub story : Story
  pub classification : ExportStalenessClassification
  pub causes : List StalenessCause
  pub exported_lineage : Option ExportedStoryLineage
  pub impacted_by_prerequisite_story_ids : List Text
  pub current_content_hash : Text
