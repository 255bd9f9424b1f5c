-- ===== src/Requirements/Source/Laws.antt =====
-- A chain of source revisions counts up from its first one.
use solutions_studio.Base.{ℕ, suc, ◌+◌, ◌≡◌, ◌≢◌, some, arith}
use solutions_studio.Base.Text.{Text}
use solutions_studio.Base.Numbers.{to_ℕ}
use solutions_studio.Base.Result.{ok}
use solutions_studio.Requirements.Types.{SourceRevision}
use solutions_studio.Requirements.Source.{SourceChanges, revise_source}

-- `n` revisions lead from the first source revision to the second.
pub data Chain (first : SourceRevision) : ℕ → SourceRevision → Type 0 where
  start : Chain first 0 first
  revised :
      {n : ℕ} {r s : SourceRevision} (changes : SourceChanges) (now : Text)
      → Chain first n r
      → revise_source r changes now ≡ ok s
      → Chain first (suc n) s

record IsSuccessor (r s : SourceRevision) : Type 0 where
  same_source : s.source_id ≡ r.source_id
  numbered : s.revision ≡ suc r.revision
  linked : s.supersedes ≡ some r.id
  fresh : s.id ≢ r.id

revise_source-IsSuccessor :
    (r : SourceRevision) (changes : SourceChanges) (now : Text) {s : SourceRevision}
    → revise_source r changes now ≡ ok s
    → IsSuccessor r s
unfolding revise_source to_ℕ
revise_source-IsSuccessor r changes now h = ground arith

-- After n revisions the revision number has grown by n, and the source is the same.
pub Chain-numbered :
    {first last : SourceRevision} {n : ℕ}
    → Chain first n last
    → (last.source_id ≡ first.source_id) × (last.revision ≡ first.revision + n)
Chain-numbered start = ground arith
Chain-numbered (revised {r = r} changes now c e) =
    ground (arith, Chain-numbered c, revise_source-IsSuccessor r changes now e)
