-- ===== src/Store/History.antt =====
-- The directory of approvals of FilesystemRequirementsRepository.ts under every sequence of its methods.
-- Reading and writing the disk succeed here: a method fails by its checks, by the schema, or because
-- the file of a new record exists.
use solutions_studio.Base.{◌≡◌, ◌⊎◌, ◌∙◌, sym, ap, inl, inr, false, Option, none, some, [], arith}
use solutions_studio.Base.Text.{Text}
use solutions_studio.Base.Maps.{get}
use solutions_studio.Base.Result.{Result, ok, throw, Result-cases}
use solutions_studio.Governance.Types.{CandidateApprovalRecord}
use solutions_studio.Governance.Factories.{is_active}
use solutions_studio.Governance.Factories.Lifecycle
use solutions_studio.Governance.Factories.Lifecycle.{History, changed, Step-IsFinal}
use solutions_studio.Store.Schema.{StoreError, parse_approval}
use solutions_studio.Store.Approvals.{
  Host, Files, save_governance_approval, replace_governance_approval, replace_unexpected,
  check_no_active, GovernanceApprovalStatus, update_governance_approval, write_exclusive,
  resolve_store_path,
}
use solutions_studio.Store.Listing.{ListsAll}
use solutions_studio.Store.Laws.{
  IsConsistent, IsMade, IsWrite, IsWrite-IsConsistent, check_no_active-IsFree,
  save_governance_approval-IsConsistent,
}
use solutions_studio.Store.Replacing.{replace_expected-IsConsistent}
use solutions_studio.Store.Recreate.{IsKnown}
use solutions_studio.Store.RoundTrip.{History-IsMade}

-- What a method that fails leaves of the files.
save_fails :
    (host : Host) (a : CandidateApprovalRecord) (files after : Files) (e : StoreError)
    → save_governance_approval host a files ≡ (after, throw e)
    → after ≡ files
unfolding save_governance_approval write_exclusive
save_fails host a files after e h = ground (arith, h)

-- An update has changed nothing, or it has written what the schema made of the record.
update_cases :
    (host : Host) (a : CandidateApprovalRecord) (expected : Option GovernanceApprovalStatus)
    (files after : Files) (r : Result StoreError (Unit {0}))
    → update_governance_approval host a expected files ≡ (after, r)
    → (after ≡ files) ⊎ ((v : CandidateApprovalRecord) × IsWrite host a v files after)
unfolding update_governance_approval resolve_store_path
update_cases host a expected files after (throw e) h = inl (ground (arith, h))
update_cases host a expected files after (ok _) h =
    inr (elim (Result-cases (parse_approval host.is_email a)) [
      | inr (e, thrown) ↦ absurd (ground (arith, h, thrown))
      | inl (v, known) ↦ (
        v,
        record {
          safe = ground (arith, h);
          resolved = ground (arith, h);
          parsed = known;
          written = ground (arith, h, known);
        },
      )
    ])

unexpected_parts :
    (host : Host) (a : CandidateApprovalRecord) (files after : Files)
    (r : Result StoreError (Unit {0}))
    → replace_unexpected host a files ≡ (after, r)
    → (after ≡ files)
      ⊎ (((v : CandidateApprovalRecord) × IsWrite host a v files after)
          × (check_no_active host a.candidate_sha files ≡ ok tt))
unfolding replace_unexpected write_exclusive resolve_store_path
unexpected_parts host a files after (throw e) h = inl (ground (arith, h))
unexpected_parts host a files after (ok _) h =
    inr (elim (Result-cases (parse_approval host.is_email a)) [
      | inr (e, thrown) ↦ absurd (ground (arith, h, thrown))
      | inl (v, known) ↦ (
        (
          v,
          record {
            safe = ground (arith, h);
            resolved = ground (arith, h);
            parsed = known;
            written = ground (arith, h, known);
          },
        ),
        ground (arith, h),
      )
    ])

-- The calls that the use cases make, with records that the factories made: one is saved, replaces
-- another, or, as the revocation or supersession of an earlier one, is written over it. The result may
-- be an error.
pub data Step (host : Host) : Files → Files → Type 0 where
  saved :
      {files after : Files} (a : CandidateApprovalRecord) (r : Result StoreError (Unit {0}))
      → History a
      → IsKnown a
      → save_governance_approval host a files ≡ (after, r)
      → Step host files after
  replaced :
      {files after : Files} (a : CandidateApprovalRecord) (expected : Option Text)
      (r : Result StoreError (Unit {0}))
      → History a
      → IsKnown a
      → replace_governance_approval host a expected files ≡ (after, r)
      → Step host files after
  updated :
      {files after : Files} (b a : CandidateApprovalRecord)
      (expected : Option GovernanceApprovalStatus) (r : Result StoreError (Unit {0}))
      → History b
      → Lifecycle.Step b a
      → IsKnown a
      → update_governance_approval host a expected files ≡ (after, r)
      → Step host files after

-- From an empty directory.
pub data Reachable (host : Host) : Files → Type 0 where
  empty : Reachable host []
  next : {files after : Files} → Reachable host files → Step host files after → Reachable host after

replace-IsConsistent :
    (host : Host) (a : CandidateApprovalRecord) (expected : Option Text) (files after : Files)
    (r : Result StoreError (Unit {0}))
    → ListsAll host
    → IsConsistent host files
    → IsMade host a
    → replace_governance_approval host a expected files ≡ (after, r)
    → IsConsistent host after
unfolding replace_governance_approval
replace-IsConsistent host a none files after r lists c made h =
    elim (unexpected_parts host a files after r h) [
      | inl same_files ↦ rw same_files c
      | inr ((v, w), checked) ↦
          IsWrite-IsConsistent host a v files after c made
            (λ _. check_no_active-IsFree host a files lists c checked) w
    ]
replace-IsConsistent host a (some e) files after r lists c made h =
    elim (replace_expected-IsConsistent host a e files c) [
      | inl (error, failed) ↦
          let same_files : after ≡ files = ap (λ p. p.0) (sym h ∙ failed) in rw same_files c
      | inr (result, done, consistent) ↦
          let same_files : after ≡ result = ap (λ p. p.0) (sym h ∙ done) in
          rw same_files (consistent made)
    ]

update-IsConsistent :
    (host : Host) (a : CandidateApprovalRecord) (expected : Option GovernanceApprovalStatus)
    (files after : Files) (r : Result StoreError (Unit {0}))
    → IsConsistent host files
    → IsMade host a
    → is_active a.status ≡ false
    → update_governance_approval host a expected files ≡ (after, r)
    → IsConsistent host after
update-IsConsistent host a expected files after r c made withdrawn h =
    elim (update_cases host a expected files after r h) [
      | inl same_files ↦ rw same_files c
      | inr (v, w) ↦
          IsWrite-IsConsistent host a v files after c made (λ p. absurd (cc (p, withdrawn))) w
    ]

Step-IsConsistent :
    (host : Host) {files after : Files}
    → ListsAll host
    → Step host files after
    → IsConsistent host files
    → IsConsistent host after
Step-IsConsistent host {files} {after} lists (saved a (ok _) made known h) c =
    save_governance_approval-IsConsistent host a files after lists c
      (History-IsMade host made known) h
Step-IsConsistent host {files} {after} lists (saved a (throw e) made known h) c =
    rw (save_fails host a files after e h) c
Step-IsConsistent host {files} {after} lists (replaced a expected r made known h) c =
    replace-IsConsistent host a expected files after r lists c (History-IsMade host made known) h
Step-IsConsistent host {files} {after} lists (updated b a expected r made step known h) c =
    update-IsConsistent host a expected files after r c
      (History-IsMade host (changed made step) known) (Step-IsFinal step).not_active h

empty-IsConsistent : (host : Host) → IsConsistent host []
unfolding get
empty-IsConsistent host = record {
  filed = λ id a e. absurd (ground (arith, e));
  unique = λ i j a b e f s t l. absurd (ground (arith, e));
}

-- Whatever sequence of calls the directory went through, one after the other, in which records of the
-- factories, with canonical actors and times, are saved, replace others, or are written over the
-- records that they revoke or supersede, every file can be read back and no candidate has two active
-- approvals, provided that a directory lists all its files and the disk can be read and written.
pub Reachable-IsConsistent :
    (host : Host) (files : Files) → ListsAll host → Reachable host files → IsConsistent host files
Reachable-IsConsistent host files lists empty = empty-IsConsistent host
Reachable-IsConsistent host files lists (next {files = before} reached step) =
    Step-IsConsistent host lists step (Reachable-IsConsistent host before lists reached)

unexpected_fails :
    (host : Host) (a : CandidateApprovalRecord) (files after : Files) (e : StoreError)
    → replace_unexpected host a files ≡ (after, throw e)
    → after ≡ files
unfolding replace_unexpected write_exclusive
unexpected_fails host a files after e h = ground (arith, h)

-- In consistent files, a replacement by any record that throws has left the files as they were, also
-- when the schema refused the new record or its file existed after the old one was superseded,
-- provided that the disk can be read and written.
pub replace_governance_approval_fails :
    (host : Host) (a : CandidateApprovalRecord) (expected : Option Text) (files after : Files)
    (e : StoreError)
    → IsConsistent host files
    → replace_governance_approval host a expected files ≡ (after, throw e)
    → after ≡ files
unfolding replace_governance_approval
replace_governance_approval_fails host a none files after e c h =
    unexpected_fails host a files after e h
replace_governance_approval_fails host a (some x) files after e c h =
    elim (replace_expected-IsConsistent host a x files c) [
      | inl (error, failed) ↦ ap (λ p. p.0) (sym h ∙ failed)
      | inr (result, done, _) ↦ absurd (ground (arith, ap (λ p. p.1) (sym h ∙ done)))
    ]
