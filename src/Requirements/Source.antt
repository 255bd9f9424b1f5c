-- ===== src/Requirements/Source.antt =====
-- packages/domain/src/requirements/SourceRevision.ts. `now()` is the argument `now`.
pub mod Laws
use solutions_studio.Base.{suc, Option, none, some, value_or}
use solutions_studio.Base.Text.{Text, same, trim, is_blank}
use solutions_studio.Base.Numbers.{Number, integer, pos, is_not_positive_integer, to_ℕ}
use solutions_studio.Base.Result.{Result, ok, throw, ◌>>=◌, ◌>>◌, throw_if}
use solutions_studio.Requirements.Types.{
  SourceRevision, DomainError, invalid_revision_number, empty_content_hash, same_revision_id,
}

pub record CreateSourceRevisionParams : Type 0 where
  pub id : Text
  pub source_id : Text
  pub revision : Number
  pub content_hash : Text
  pub captured_at : Option Text
  pub verified_at : Option Text
  pub supersedes : Option Text

pub record SourceChanges : Type 0 where
  pub id : Text
  pub content_hash : Text
  pub captured_at : Option Text
  pub verified_at : Option Text

unfoldable pub create_source_revision :
    CreateSourceRevisionParams → (now : Text) → Result DomainError SourceRevision
create_source_revision params now = do
  throw_if (is_not_positive_integer params.revision) (invalid_revision_number params.revision)
  throw_if (is_blank params.content_hash) empty_content_hash
  ok (record {
    id = params.id;
    source_id = params.source_id;
    revision = to_ℕ params.revision;
    content_hash = trim params.content_hash;
    captured_at = value_or params.captured_at now;
    verified_at = params.verified_at;
    supersedes = params.supersedes;
  })

unfoldable pub revise_source :
    SourceRevision → SourceChanges → (now : Text) → Result DomainError SourceRevision
unfolding create_source_revision
revise_source previous changes now = do
  throw_if (same changes.id previous.id) (same_revision_id changes.id)
  create_source_revision
      (record {
        id = changes.id;
        source_id = previous.source_id;
        revision = integer (pos (suc previous.revision));
        content_hash = changes.content_hash;
        captured_at = changes.captured_at;
        verified_at = changes.verified_at;
        supersedes = some previous.id;
      })
      now
