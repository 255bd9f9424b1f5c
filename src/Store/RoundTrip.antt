-- ===== src/Store/RoundTrip.antt =====
-- An approval that FilesystemRequirementsRepository.ts saved, read back.
use solutions_studio.Base.{◌≡◌, refl, Bool, inl, inr, some, arith}
use solutions_studio.Base.Text.{Text}
use solutions_studio.Base.Maps.{get-set_same}
use solutions_studio.Base.Result.{ok, Result-cases}
use solutions_studio.Governance.Types.{
  ApprovalActor, ApprovalStatus, active, superseded, revoked, CandidateApprovalRecord,
}
use solutions_studio.Governance.Factories.{trim_actor}
use solutions_studio.Governance.Factories.Lifecycle.{History}
use solutions_studio.Store.Schema.{parse_actor, parse_status, parse_approval}
use solutions_studio.Store.Approvals.{
  Host, Files, read_record, read_file, get_governance_approval, save_governance_approval,
}
use solutions_studio.Store.Laws.{IsMade, made-IsFiled, saved_parts}
use solutions_studio.Store.Recreate.{
  IsFixedStatus, IsFixed, IsKnown, History-IsFixed, recreate-History,
}

parse_actor_lem :
    (is_email : Text → Bool) (a b : ApprovalActor)
    → trim_actor a ≡ a
    → parse_actor is_email a ≡ ok b
    → b ≡ a
unfolding parse_actor trim_actor
parse_actor_lem is_email a b e h = ground (arith, h, e)

parse_status_lem :
    (is_email : Text → Bool) (s t : ApprovalStatus)
    → IsFixedStatus s
    → parse_status is_email s ≡ ok t
    → t ≡ s
unfolding parse_status IsFixedStatus
parse_status_lem is_email active t i h = ground (arith, h)
parse_status_lem is_email superseded t i h = ground (arith, h)
parse_status_lem is_email (revoked r) t i h =
    elim (Result-cases (parse_actor is_email r.revoked_by)) [
      | inr (e, thrown) ↦ absurd (ground (arith, h, thrown))
      | inl (by, known) ↦
          let same_actor = parse_actor_lem is_email r.revoked_by by i.0 known in
          ground (arith, h, known, i.2, same_actor)
    ]

-- The schema changes nothing of what the factories made.
parse_approval-IsFixed :
    (is_email : Text → Bool) (a b : CandidateApprovalRecord)
    → IsFixed a
    → parse_approval is_email a ≡ ok b
    → b ≡ a
unfolding parse_approval
parse_approval-IsFixed is_email a b i h = elim (Result-cases (parse_actor is_email a.actor)) [
  | inr (e, thrown) ↦ absurd (ground (arith, h, thrown))
  | inl (actor, known) ↦ elim (Result-cases (parse_status is_email a.status)) [
    | inr (e, thrown) ↦ absurd (ground (arith, h, known, thrown))
    | inl (status, found) ↦
        let same_actor = parse_actor_lem is_email a.actor actor i.actor known in
        let same_status = parse_status_lem is_email a.status status i.status found in
        ground (arith, h, known, found, i.trimmed, same_actor, same_status)
  ]
]

pub History-IsMade :
    (host : Host) {a : CandidateApprovalRecord} → History a → IsKnown a → IsMade host a
History-IsMade host {a} h known = record {
  unchanged = λ v. parse_approval-IsFixed host.is_email a v (History-IsFixed h);
  recreated = recreate-History h known;
}

-- An approval with canonical identifiers and times that the factories made, revoked or superseded is,
-- once it is saved, read back as it was.
pub get-save_governance_approval :
    (host : Host) (a : CandidateApprovalRecord) (files after : Files)
    → History a
    → IsKnown a
    → save_governance_approval host a files ≡ (after, ok tt)
    → get_governance_approval host a.id after ≡ ok (some a)
unfolding get_governance_approval read_file read_record
get-save_governance_approval host a files after made known h =
    let ((v, w), _) = saved_parts host a files after h in
    let (own, filed) =
      made-IsFiled host a v (History-IsMade host made known) w.safe w.resolved w.parsed in
    rw w.written (
      rw w.safe (
        rw w.resolved
          (rw (get-set_same a.id v files) (rw own (rw filed.parsed (rw filed.recreated refl))))))
