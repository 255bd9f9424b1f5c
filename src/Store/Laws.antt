-- ===== src/Store/Laws.antt =====
-- What the methods of FilesystemRequirementsRepository.ts on approvals keep.
use solutions_studio.Base.{
  ◌≡◌, ◌∙◌, sym, ap, inl, inr, refl, true, false, some, [], ◌∷◌, arith, is_empty,
}
use solutions_studio.Base.Text.{Text, is_blank, trim, to_lower}
use solutions_studio.Base.Maps.{get, set, get-set_cases}
use solutions_studio.Base.Result.{ok, Result-cases}
use solutions_studio.Governance.Types.{CandidateApprovalRecord}
use solutions_studio.Governance.Factories.{is_active}
use solutions_studio.Store.Schema.{parse_approval, recreate}
use solutions_studio.Store.Approvals.{
  Host, Files, assert_safe_identifier, resolve_store_path, write_exclusive, check_no_active,
  save_governance_approval,
}
use solutions_studio.Store.Listing.{IsFiled, AllFiled, ListsAll}
use solutions_studio.Store.Active.{none_active}

-- Every file can be read back, and a candidate has at most one active approval.
pub record IsConsistent (host : Host) (files : Files) : Type 0 where
  pub filed : AllFiled host files
  pub unique :
      (i j : Text) (a b : CandidateApprovalRecord)
      → get i files ≡ some a
      → get j files ≡ some b
      → is_active a.status ≡ true
      → is_active b.status ≡ true
      → to_lower a.candidate_sha ≡ to_lower b.candidate_sha
      → i ≡ j

-- No approval of the same candidate is active.
abbrev pub IsFree : Files → CandidateApprovalRecord → Type 0
IsFree files a =
    (id : Text) (b : CandidateApprovalRecord)
    → get id files ≡ some b
    → to_lower b.candidate_sha ≡ to_lower a.candidate_sha
    → is_active b.status ≡ false

-- Writing a record keeps the files consistent when it is not active or the candidate is free.
pub set-IsConsistent :
    (host : Host) (files : Files) (a : CandidateApprovalRecord)
    → IsConsistent host files
    → IsFiled host a.id a
    → (is_active a.status ≡ true → IsFree files a)
    → IsConsistent host (set a.id a files)
set-IsConsistent host files a c w free = record {
  filed = λ id b e. elim (get-set_cases a.id id a b files e) [
    | inl (p, q) ↦ rw (p, q) w
    | inr old ↦ c.filed id b old
  ];
  unique = λ i j b d e f s t l. elim (get-set_cases a.id i a b files e) [
    | inl (p, q) ↦ elim (get-set_cases a.id j a d files f) [
      | inl (r, u) ↦ p ∙ sym r
      | inr old ↦ absurd (
          cc (
            t,
            free (ap (λ (x : CandidateApprovalRecord). is_active x.status) (sym q) ∙ s) j d old
                (sym l ∙ ap (λ (x : CandidateApprovalRecord). to_lower x.candidate_sha) q),
          ))
    ]
    | inr old ↦ elim (get-set_cases a.id j a d files f) [
      | inl (r, u) ↦ absurd (
          cc (
            s,
            free (ap (λ (x : CandidateApprovalRecord). is_active x.status) (sym u) ∙ t) i b old
                (l ∙ ap (λ (x : CandidateApprovalRecord). to_lower x.candidate_sha) u),
          ))
      | inr older ↦ c.unique i j b d old older s t l
    ]
  ];
}

nonempty_of_written : (t : Text) → is_blank t ≡ false → is_empty t ≡ false
unfolding trim
nonempty_of_written [] h = cc
nonempty_of_written (c ∷ t) h = refl

pub safe_nonempty : (t : Text) → assert_safe_identifier t ≡ ok tt → is_empty t ≡ false
unfolding assert_safe_identifier
safe_nonempty t h = nonempty_of_written t (ground arith)

-- The schema keeps the record, and recreating it from what was read gives it again.
pub record IsMade (host : Host) (a : CandidateApprovalRecord) : Type 0 where
  pub unchanged : (v : CandidateApprovalRecord) → parse_approval host.is_email a ≡ ok v → v ≡ a
  pub recreated : recreate a ≡ ok a

-- Such a record is filed once the checks of a write have passed.
pub made-IsFiled :
    (host : Host) (a v : CandidateApprovalRecord)
    → IsMade host a
    → assert_safe_identifier a.id ≡ ok tt
    → resolve_store_path a.id ≡ ok a.id
    → parse_approval host.is_email a ≡ ok v
    → (v ≡ a) × IsFiled host a.id a
made-IsFiled host a v made safe resolved parsed =
    let own = made.unchanged v parsed in
    (
      own,
      record {
        keyed = refl;
        safe = safe;
        resolved = resolved;
        parsed = parsed ∙ ap (λ x. ok x) own;
        recreated = made.recreated;
      },
    )

pub resolve_store_path_lem :
    (id path : Text) → resolve_store_path id ≡ ok path → resolve_store_path id ≡ ok id
unfolding resolve_store_path
resolve_store_path_lem id path h = ground (arith, h)

-- A write that passed its checks.
pub record IsWrite (host : Host) (a v : CandidateApprovalRecord) (files after : Files)
    : Type 0 where
  pub safe : assert_safe_identifier a.id ≡ ok tt
  pub resolved : resolve_store_path a.id ≡ ok a.id
  pub parsed : parse_approval host.is_email a ≡ ok v
  pub written : after ≡ set a.id v files

-- What a successful save rests on.
pub saved_parts :
    (host : Host) (a : CandidateApprovalRecord) (files after : Files)
    → save_governance_approval host a files ≡ (after, ok tt)
    → ((v : CandidateApprovalRecord) × IsWrite host a v files after)
      × (is_active a.status ≡ true → check_no_active host a.candidate_sha files ≡ ok tt)
unfolding save_governance_approval write_exclusive resolve_store_path
saved_parts host a files after h = elim (Result-cases (parse_approval host.is_email a)) [
  | inr (e, thrown) ↦ absurd (ground (arith, h, thrown))
  | inl (v, known) ↦ (
    (
      v,
      record {
        safe = ground (arith, h);
        resolved = ground (arith, h);
        parsed = known;
        written = ground (arith, h, known);
      },
    ),
    λ p. ground (arith, h, p),
  )
]

-- What a write of a record that was made leaves, when no active approval is in its way.
pub IsWrite-IsConsistent :
    (host : Host) (a v : CandidateApprovalRecord) (files after : Files)
    → IsConsistent host files
    → IsMade host a
    → (is_active a.status ≡ true → IsFree files a)
    → IsWrite host a v files after
    → IsConsistent host after
IsWrite-IsConsistent host a v files after c made free w =
    let (own, filed) = made-IsFiled host a v made w.safe w.resolved w.parsed in
    rw (w.written, own) (set-IsConsistent host files a c filed free)

pub check_no_active-IsFree :
    (host : Host) (a : CandidateApprovalRecord) (files : Files)
    → ListsAll host
    → IsConsistent host files
    → check_no_active host a.candidate_sha files ≡ ok tt
    → IsFree files a
unfolding check_no_active
check_no_active-IsFree host a files lists c h id b e l =
    none_active host files c.filed lists a.candidate_sha b id (ground (arith, h)) e l

-- A successful save keeps the files consistent.
pub save_governance_approval-IsConsistent :
    (host : Host) (a : CandidateApprovalRecord) (files after : Files)
    → ListsAll host
    → IsConsistent host files
    → IsMade host a
    → save_governance_approval host a files ≡ (after, ok tt)
    → IsConsistent host after
save_governance_approval-IsConsistent host a files after lists c made h =
    let ((v, w), checked) = saved_parts host a files after h in
    IsWrite-IsConsistent host a v files after c made
      (λ p. check_no_active-IsFree host a files lists c (checked p)) w
