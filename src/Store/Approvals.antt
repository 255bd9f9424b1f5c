-- ===== src/Store/Approvals.antt =====
-- The approvals of apps/orchestrator/src/infrastructure/persistence/filesystem/
-- FilesystemRequirementsRepository.ts, one function per method, under its lock. The state is the
-- directory `governance-approvals`: the record in the file `<id>.json` stands under `<id>`. A method
-- gives the state after it and its result or error. The order of a directory's entries and
-- `localeCompare` are the host's. The disk itself does not fail here: of the errors of a write, only the
-- one of a file that exists is modelled, and none of a read, nor a file that is written in part.
use Prim.Native.Nat.{Ordering}
use solutions_studio.Base.{
  Bool, true, false, not, ◌&&◌, ◌||◌, Option, none, some, List, [], ◌∷◌, ◌++◌, any, find, ◌==◌,
  if◌then◌else◌,
}
use solutions_studio.Base.Text.{Text, same, codes, trim, is_blank, is_truthy, to_lower}
use solutions_studio.Base.Maps.{Map, get, set, keys, has_key}
use solutions_studio.Base.Counts.{sort}
use solutions_studio.Base.Result.{Result, ok, throw, ◌>>=◌, ◌>>◌, throw_if}
use solutions_studio.Governance.Types.{
  ApprovalStatus, active, superseded, revoked, CandidateApprovalRecord, GovernanceError,
}
use solutions_studio.Governance.Factories.{is_active, supersede_candidate_approval_record}
use solutions_studio.Store.Schema.{
  StoreError, invalid_identifier, path_traversal, immutable_record_conflict,
  optimistic_concurrency_conflict, unknown_governance_approval, governance, parse_approval,
  recreate,
}

pub record Host : Type 0 where
  pub is_email : Text → Bool
  pub read_dir : List Text → List Text
  pub locale_compare : Text → Text → Ordering

abbrev pub Files : Type 0
Files = Map CandidateApprovalRecord

-- The state after an operation, and what it returned or threw.
abbrev pub WriteResult : Type 0
WriteResult = Files × Result StoreError (Unit {0})

-- `t.includes('..')`.
unfoldable pub has_dots : Text → Bool
has_dots [] = false
has_dots (c ∷ []) = false
has_dots (c ∷ d ∷ t) = (c == b'.' && d == b'.') || has_dots (d ∷ t)

-- The checks of `assertSafeIdentifier`; what it returns is not used by the methods here. A path that
-- is absolute has a separator.
unfoldable pub assert_safe_identifier : Text → Result StoreError (Unit {0})
unfolding has_dots
assert_safe_identifier id = do
  throw_if (is_blank id) (invalid_identifier id)
  throw_if (any (λ c. c == b'/' || c == b'\\' || c == 0) (trim id) || has_dots (trim id))
      (invalid_identifier id)

-- `resolveStorePath` for the file of an identifier, which has no separator.
unfoldable pub resolve_store_path : Text → Result StoreError Text
unfolding has_dots
resolve_store_path id = do throw_if (has_dots (id ++ codes ".json")) (path_traversal id); ok id

abbrev pub lift_governance {ℓ} : {A : Type ℓ} → Result GovernanceError A → Result StoreError A
lift_governance (ok a) = ok a
lift_governance (throw e) = throw (governance e)

module _ (host : Host) where
  -- What is made of the content of a file.
  unfoldable pub read_record : CandidateApprovalRecord → Result StoreError CandidateApprovalRecord
  read_record raw = do
    validated ← parse_approval host.is_email raw
    lift_governance (recreate validated)

  -- `if (!raw) return undefined;`, and what follows it.
  unfoldable pub read_file :
      Option CandidateApprovalRecord → Result StoreError (Option CandidateApprovalRecord)
  unfolding read_record
  read_file none = ok none
  read_file (some raw) = do a ← read_record raw; ok (some a)

  unfoldable pub get_governance_approval :
      Text → Files → Result StoreError (Option CandidateApprovalRecord)
  unfolding read_file
  get_governance_approval id files = do
    assert_safe_identifier id
    path ← resolve_store_path id
    read_file (get path files)

abbrev pub agrees : (Text → Bool) → Option Text → Bool
agrees test none = true
agrees test (some t) = test t

-- The tests of `filter` that let an approval pass.
unfoldable pub passes : (candidate_sha run_id : Option Text) → CandidateApprovalRecord → Bool
passes candidate_sha run_id a =
    (not (is_truthy candidate_sha)
      || agrees (λ s. same (to_lower a.candidate_sha) (to_lower s)) candidate_sha)
    && (not (is_truthy run_id) || agrees (λ r. same a.validation_run_id r) run_id)

-- `results.push(approval)`, for an approval that exists and passes.
unfoldable pub push_found :
    (candidate_sha run_id : Option Text)
    → Option CandidateApprovalRecord
    → List CandidateApprovalRecord
    → List CandidateApprovalRecord
unfolding passes
push_found candidate_sha run_id none rest = rest
push_found candidate_sha run_id (some a) rest =
    if passes candidate_sha run_id a then a ∷ rest else rest

module _ (host : Host) where
  -- The loop over the files.
  unfoldable pub collect :
      (candidate_sha run_id : Option Text)
      → List Text
      → Files
      → Result StoreError (List CandidateApprovalRecord)
  unfolding push_found
  collect candidate_sha run_id [] files = ok []
  collect candidate_sha run_id (id ∷ ids) files = do
    found ← get_governance_approval host id files
    rest ← collect candidate_sha run_id ids files
    ok (push_found candidate_sha run_id found rest)

  unfoldable pub list_governance_approvals :
      (candidate_sha run_id : Option Text)
      → Files
      → Result StoreError (List CandidateApprovalRecord)
  list_governance_approvals candidate_sha run_id files = do
    results ← collect candidate_sha run_id (host.read_dir (keys files)) files
    ok (sort (λ a b. host.locale_compare b.decided_at a.decided_at) results)

  unfoldable pub get_active_governance_approval :
      Text → Files → Result StoreError (Option CandidateApprovalRecord)
  unfolding list_governance_approvals
  get_active_governance_approval candidate_sha files = do
    approvals ← list_governance_approvals (some candidate_sha) none files
    ok (find (λ a. is_active a.status) approvals)

-- `writeJsonExclusive` on a disk that can be written: an existing file is left as it is (EEXIST).
unfoldable pub write_exclusive : Text → CandidateApprovalRecord → Files → WriteResult
write_exclusive path content files =
    if has_key path files
    then (files, throw (immutable_record_conflict path))
    else (set path content files, ok tt)

-- Nothing is written when a check before the write throws.
abbrev pub after_checks {ℓ} :
    {A : Type ℓ} → Files → Result StoreError A → (A → WriteResult) → WriteResult
after_checks files (throw e) write = (files, throw e)
after_checks files (ok a) write = write a

module _ (host : Host) where
  -- No approval of the candidate is active.
  unfoldable pub check_no_active : Text → Files → Result StoreError (Unit {0})
  check_no_active candidate_sha files = do
    existing ← get_active_governance_approval host candidate_sha files
    elim existing [ none ↦ ok tt | some e ↦ throw (optimistic_concurrency_conflict e.id) ]

  unfoldable pub save_governance_approval : CandidateApprovalRecord → Files → WriteResult
  save_governance_approval approval files =
      after_checks files
        (do
          assert_safe_identifier approval.id
          assert_safe_identifier approval.candidate_sha
          if is_active approval.status then check_no_active approval.candidate_sha files else ok tt
          validated ← parse_approval host.is_email approval
          path ← resolve_store_path approval.id
          ok (path, validated))
        (λ (w : Text × CandidateApprovalRecord). write_exclusive w.0 w.1 files)

  -- The active approval of the candidate, if it is the expected one.
  unfoldable pub find_expected : Text → Text → Files → Result StoreError CandidateApprovalRecord
  find_expected candidate_sha expected files = do
    existing ← get_active_governance_approval host candidate_sha files
    elim existing [
      | none ↦ throw (optimistic_concurrency_conflict expected)
      | some e ↦
          if same e.id expected then ok e else throw (optimistic_concurrency_conflict expected)
    ]

  -- The `catch`: the record that was superseded is written again as it was.
  unfoldable pub roll_back :
      (path : Text) (existing : CandidateApprovalRecord) (files : Files) → StoreError → WriteResult
  roll_back path existing files error =
      after_checks files (parse_approval host.is_email existing)
        (λ (v : CandidateApprovalRecord). (set path v files, throw error))

  -- The `try` and its `catch`, for the errors of the schema and of a file that exists; the disk takes both
  -- writes.
  unfoldable pub write_or_roll_back :
      (path new_path : Text) (existing new_approval : CandidateApprovalRecord) (files : Files)
      → WriteResult
  unfolding roll_back
  write_or_roll_back path new_path existing new_approval files =
      elim (parse_approval host.is_email new_approval) [
        | throw e ↦ roll_back path existing files e
        | ok v ↦
            if has_key new_path files
            then roll_back path existing files (immutable_record_conflict new_path)
            else write_exclusive new_path v files
      ]

  unfoldable pub replace_expected : CandidateApprovalRecord → Text → Files → WriteResult
  replace_expected new_approval expected files =
      after_checks files
        (do
          assert_safe_identifier new_approval.id
          assert_safe_identifier new_approval.candidate_sha
          existing ← find_expected new_approval.candidate_sha expected files
          superseded_record ← lift_governance (supersede_candidate_approval_record existing)
          path ← resolve_store_path existing.id
          new_path ← resolve_store_path new_approval.id
          validated ← parse_approval host.is_email superseded_record
          ok (existing, path, new_path, validated))
        (λ (w : CandidateApprovalRecord × Text × Text × CandidateApprovalRecord).
          write_or_roll_back w.1 w.2 w.0 new_approval (set w.1 w.3 files))

  unfoldable pub replace_unexpected : CandidateApprovalRecord → Files → WriteResult
  replace_unexpected new_approval files =
      after_checks files
        (do
          assert_safe_identifier new_approval.id
          assert_safe_identifier new_approval.candidate_sha
          check_no_active new_approval.candidate_sha files
          path ← resolve_store_path new_approval.id
          validated ← parse_approval host.is_email new_approval
          ok (path, validated))
        (λ (w : Text × CandidateApprovalRecord). write_exclusive w.0 w.1 files)

  unfoldable pub replace_governance_approval :
      CandidateApprovalRecord → (expected : Option Text) → Files → WriteResult
  replace_governance_approval new_approval none files = replace_unexpected new_approval files
  replace_governance_approval new_approval (some e) files = replace_expected new_approval e files

pub data GovernanceApprovalStatus : Type 0 where
  is_active_status is_superseded_status is_revoked_status : GovernanceApprovalStatus

-- `existing.status === expected`.
abbrev pub has_status : GovernanceApprovalStatus → ApprovalStatus → Bool
has_status is_active_status active = true
has_status is_superseded_status superseded = true
has_status is_revoked_status (revoked _) = true
has_status _ _ = false

abbrev pub expect_status :
    Option GovernanceApprovalStatus → CandidateApprovalRecord → Result StoreError (Unit {0})
expect_status none existing = ok tt
expect_status (some expected) existing =
    throw_if (not (has_status expected existing.status))
      (optimistic_concurrency_conflict existing.id)

module _ (host : Host) where
  unfoldable pub update_governance_approval :
      CandidateApprovalRecord → Option GovernanceApprovalStatus → Files → WriteResult
  update_governance_approval approval expected files =
      after_checks files
        (do
          assert_safe_identifier approval.id
          path ← resolve_store_path approval.id
          existing ← elim (get path files) [
            | none ↦ throw (unknown_governance_approval approval.id)
            | some raw ↦ parse_approval host.is_email raw
          ]
          expect_status expected existing
          validated ← parse_approval host.is_email approval
          ok (path, validated))
        (λ (w : Text × CandidateApprovalRecord). (set w.0 w.1 files, ok tt))
