-- ===== src/Store/Replacing.antt =====
-- Replacing and updating an approval in FilesystemRequirementsRepository.ts.
use solutions_studio.Base.{
  ◌≡◌, ◌⊎◌, ◌∙◌, sym, ap, inl, inr, refl, true, some, arith, Bool, Bool-cases,
}
use solutions_studio.Base.Text.{Text, to_lower}
use solutions_studio.Base.Maps.{get, set, has_key, get-set_cases, get-set_same, set-restore}
use solutions_studio.Base.Result.{ok, throw, Result-cases}
use solutions_studio.Governance.Types.{CandidateApprovalRecord, superseded}
use solutions_studio.Governance.Factories.{is_active, supersede_candidate_approval_record}
use solutions_studio.Store.Schema.{
  StoreError, immutable_record_conflict, parse_approval, parse_status, recreate, recreate_active,
  recreate_status,
}
use solutions_studio.Store.Approvals.{
  Host, Files, assert_safe_identifier, resolve_store_path, get_active_governance_approval,
  write_exclusive, find_expected, roll_back, write_or_roll_back, replace_expected,
}
use solutions_studio.Store.Listing.{IsFiled, AllFiled}
use solutions_studio.Store.Active.{active_filed, sha_of_passes}
use solutions_studio.Store.Laws.{
  IsConsistent, IsFree, set-IsConsistent, safe_nonempty, IsMade, made-IsFiled,
  resolve_store_path_lem,
}

-- The record that `supersedeCandidateApprovalRecord` makes.
abbrev supersede : CandidateApprovalRecord → CandidateApprovalRecord
supersede a = record a { status = superseded }

parse-supersede :
    (is_email : Text → Bool) (a : CandidateApprovalRecord)
    → parse_approval is_email a ≡ ok a
    → parse_approval is_email (supersede a) ≡ ok (supersede a)
unfolding parse_approval parse_status
parse-supersede is_email a h = ground (arith, h)

recreate_active-supersede :
    (a : CandidateApprovalRecord) → recreate_active (supersede a) ≡ recreate_active a
unfolding recreate_active
recreate_active-supersede a = refl

active_recreated :
    (a : CandidateApprovalRecord)
    → is_active a.status ≡ true
    → recreate a ≡ ok a
    → recreate_active a ≡ ok a
unfolding recreate recreate_status
active_recreated a p h = ground (arith, p, h)

recreate-supersede :
    (a : CandidateApprovalRecord)
    → is_active a.status ≡ true
    → recreate a ≡ ok a
    → recreate (supersede a) ≡ ok (supersede a)
unfolding recreate recreate_status supersede_candidate_approval_record
recreate-supersede a p h =
    rw (recreate_active-supersede a) (rw (active_recreated a p h) (rw p refl))

supersede-IsFiled :
    (host : Host) (a : CandidateApprovalRecord)
    → is_active a.status ≡ true
    → IsFiled host a.id a
    → IsFiled host a.id (supersede a)
supersede-IsFiled host a p w = record {
  keyed = refl;
  safe = w.safe;
  resolved = w.resolved;
  parsed = parse-supersede host.is_email a w.parsed;
  recreated = recreate-supersede a p w.recreated;
}

supersede_ok :
    (a : CandidateApprovalRecord)
    → is_active a.status ≡ true
    → supersede_candidate_approval_record a ≡ ok (supersede a)
unfolding supersede_candidate_approval_record
supersede_ok a p = rw p refl

find_expected_lem :
    (host : Host) (sha expected : Text) (files : Files) (ex : CandidateApprovalRecord)
    → find_expected host sha expected files ≡ ok ex
    → get_active_governance_approval host sha files ≡ ok (some ex)
unfolding find_expected
find_expected_lem host sha expected files ex h = ground (arith, h)

-- What a replacement has done: nothing, or it has written the superseded record.
replace_parts :
    (host : Host) (a : CandidateApprovalRecord) (expected : Text) (files : Files)
    → AllFiled host files
    → ((e : StoreError) × (replace_expected host a expected files ≡ (files, throw e)))
      ⊎ ((ex : CandidateApprovalRecord) × (get_active_governance_approval host a.candidate_sha files
            ≡ ok (some ex))
          × (get ex.id files ≡ some ex)
          × (assert_safe_identifier a.id ≡ ok tt)
          × (assert_safe_identifier a.candidate_sha ≡ ok tt)
          × (resolve_store_path a.id ≡ ok a.id)
          × (replace_expected host a expected files
              ≡ write_or_roll_back host ex.id a.id ex a (set ex.id (supersede ex) files)))
unfolding replace_expected
replace_parts host a expected files all = elim (Result-cases (assert_safe_identifier a.id)) [
  | inr (e, thrown) ↦ inl (e, rw thrown refl)
  | inl (_, named) ↦ elim (Result-cases (assert_safe_identifier a.candidate_sha)) [
    | inr (e, thrown) ↦ inl (e, rw named (rw thrown refl))
    | inl (_, safe) ↦ elim (Result-cases (find_expected host a.candidate_sha expected files)) [
      | inr (e, thrown) ↦ inl (e, rw named (rw safe (rw thrown refl)))
      | inl (ex, found) ↦
          let active_one = find_expected_lem host a.candidate_sha expected files ex found in
          let (filed, p, _) = active_filed host files all a.candidate_sha ex active_one in
          let known = all ex.id ex filed in
          let superseded_one = supersede-IsFiled host ex p known in
          elim (Result-cases (resolve_store_path a.id)) [
            | inr (e, thrown) ↦ inl (
              e,
              rw named (
                  rw safe (rw found (rw (supersede_ok ex p) (rw known.resolved (rw thrown refl))))),
            )
            | inl (path, resolved) ↦
                let own = resolve_store_path_lem a.id path resolved in
                inr (
                  ex,
                  active_one,
                  filed,
                  named,
                  safe,
                  own,
                  rw named (
                      rw safe (
                        rw found (
                          rw (supersede_ok ex p)
                            (rw known.resolved (rw own (rw superseded_one.parsed refl)))))),
                )
          ]
    ]
  ]
]

-- The rollback leaves the files as they were.
roll_back_lem :
    (host : Host) (ex : CandidateApprovalRecord) (files : Files) (e : StoreError)
    → IsFiled host ex.id ex
    → get ex.id files ≡ some ex
    → roll_back host ex.id ex (set ex.id (supersede ex) files) e ≡ (files, throw e)
unfolding roll_back
roll_back_lem host ex files e known filed =
    rw known.parsed (rw (set-restore ex.id ex (supersede ex) files filed) refl)

-- The write of the new record, or the rollback.
write_parts :
    (host : Host) (ex a : CandidateApprovalRecord) (files : Files)
    → IsFiled host ex.id ex
    → get ex.id files ≡ some ex
    → ((e : StoreError) × (write_or_roll_back host ex.id a.id ex a (set ex.id (supersede ex) files)
          ≡ (files, throw e)))
      ⊎ ((v : CandidateApprovalRecord) × (parse_approval host.is_email a ≡ ok v)
          × (write_or_roll_back host ex.id a.id ex a (set ex.id (supersede ex) files)
              ≡ (set a.id v (set ex.id (supersede ex) files), ok tt)))
unfolding write_or_roll_back write_exclusive
write_parts host ex a files known filed = elim (Result-cases (parse_approval host.is_email a)) [
  | inr (e, thrown) ↦
      inl (e, rw (write_or_roll_back, thrown) (roll_back_lem host ex files e known filed))
  | inl (v, parsed) ↦ elim (Bool-cases (has_key a.id (set ex.id (supersede ex) files))) [
    | inl taken ↦ inl (
      immutable_record_conflict a.id,
      rw (write_or_roll_back, parsed)
          (rw taken (roll_back_lem host ex files (immutable_record_conflict a.id) known filed)),
    )
    | inr free ↦ inr (v, parsed, rw (write_or_roll_back, parsed) (rw free refl))
  ]
]

-- Once its active approval is superseded, a candidate is free.
freed :
    (host : Host) (files : Files) (ex a : CandidateApprovalRecord)
    → IsConsistent host files
    → get ex.id files ≡ some ex
    → is_active ex.status ≡ true
    → to_lower ex.candidate_sha ≡ to_lower a.candidate_sha
    → IsFree (set ex.id (supersede ex) files) a
freed host files ex a c filed p own id b e l =
    elim (get-set_cases ex.id id (supersede ex) b files e) [
      | inl (_, q) ↦ ap (λ (x : CandidateApprovalRecord). is_active x.status) q
      | inr old ↦ elim (Bool-cases (is_active b.status)) [
        | inr gone ↦ gone
        | inl still ↦
            let same_id : id ≡ ex.id = c.unique id ex.id b ex old filed still p (l ∙ sym own) in
            let overwritten : supersede ex ≡ b = ground (
              arith,
              sym (get-set_same ex.id (supersede ex) files)
                  ∙ ap (λ k. get k (set ex.id (supersede ex) files)) (sym same_id)
                  ∙ e,
            ) in
            sym (ap (λ (x : CandidateApprovalRecord). is_active x.status) overwritten)
      ]
    ]

-- A replacement of the expected approval keeps the files consistent if it succeeds and what is written
-- can be read back, and changes nothing if it fails, after a rollback too.
pub replace_expected-IsConsistent :
    (host : Host) (a : CandidateApprovalRecord) (expected : Text) (files : Files)
    → IsConsistent host files
    → ((e : StoreError) × (replace_expected host a expected files ≡ (files, throw e)))
      ⊎ ((after : Files) × (replace_expected host a expected files ≡ (after, ok tt))
          × (IsMade host a → IsConsistent host after))
replace_expected-IsConsistent host a expected files c =
    elim (replace_parts host a expected files c.filed) [
      | inl (e, thrown) ↦ inl (e, thrown)
      | inr (ex, found, filed, named, safe, resolved, e) ↦
          let (_, p, passed) = active_filed host files c.filed a.candidate_sha ex found in
          let known = c.filed ex.id ex filed in
          let own : to_lower ex.candidate_sha ≡ to_lower a.candidate_sha =
            sha_of_passes a.candidate_sha ex (safe_nonempty a.candidate_sha safe) passed in
          elim (write_parts host ex a files known filed) [
            | inl (error, failed) ↦ inl (error, e ∙ failed)
            | inr (v, parsed, written) ↦ inr (
              set a.id v (set ex.id (supersede ex) files),
              e ∙ written,
              λ made.
                  let (same_record, w) = made-IsFiled host a v made named resolved parsed in
                  rw same_record (
                    set-IsConsistent host (set ex.id (supersede ex) files) a
                      (set-IsConsistent host files (supersede ex) c
                        (supersede-IsFiled host ex p known) (λ no. absurd cc))
                      w (λ _. freed host files ex a c filed p own)),
            )
          ]
    ]
