-- ===== src/Store/Recreate.antt =====
-- Reading an approval of the factories back from FilesystemRequirementsRepository.ts.
use solutions_studio.Base.{
  ◌≡◌, refl, sym, ap, subst, value_or, true, false, Option, none, some, arith,
}
use solutions_studio.Base.Text.{Text, trim, is_blank, to_lower, trim-trim}
use solutions_studio.Base.Result.{ok}
use solutions_studio.Ids.{
  assert_non_empty, is_sha256, create_actor_id, create_candidate_sha, create_validation_run_id,
  create_governance_approval_id,
}
use solutions_studio.Ids.Laws.{create_candidate_sha-IsCanonicalSha, to_lower-IsDigest}
use solutions_studio.Ids.Instant.{create_instant}
use solutions_studio.Governance.Types.{
  ApprovalActor, ApprovalStatus, active, superseded, revoked, CandidateApprovalRecord,
}
use solutions_studio.Governance.Factories.{
  lift_id, trim_email, trim_actor, create_supersedes, CreateCandidateApprovalRecordProps,
  create_candidate_approval_record, revoke_candidate_approval_record,
  supersede_candidate_approval_record,
}
use solutions_studio.Governance.Factories.Lifecycle.{
  Step, revoke, supersede, History, created, changed, Step-IsFinal,
}
use solutions_studio.Store.Schema.{recreate, recreate_active, recreate_status}

trim_email-trim_email : (e : Option Text) → trim_email (trim_email e) ≡ trim_email e
unfolding trim_email
trim_email-trim_email none = refl
trim_email-trim_email (some t) = ground (arith, trim-trim t)

trim_actor-trim_actor : (a : ApprovalActor) → trim_actor (trim_actor a) ≡ trim_actor a
unfolding trim_actor
trim_actor-trim_actor a = ground (arith, trim-trim a.name, trim_email-trim_email a.email)

supersedes_stable : (a b : Option Text) → create_supersedes a ≡ ok b → create_supersedes b ≡ ok b
unfolding create_supersedes create_governance_approval_id assert_non_empty
supersedes_stable none b h = ground (arith, h)
supersedes_stable (some t) b h = ground (arith, h, trim-trim t)

unfoldable pub IsFixedStatus : ApprovalStatus → Type 0
IsFixedStatus active = Unit
IsFixedStatus superseded = Unit
IsFixedStatus (revoked r) =
    (trim_actor r.revoked_by ≡ r.revoked_by)
    × (is_blank r.rationale ≡ false)
    × (trim r.rationale ≡ r.rationale)

-- What the factory leaves, it takes again.
pub record IsFixed (a : CandidateApprovalRecord) : Type 0 where
  pub id : lift_id (create_governance_approval_id a.id) ≡ ok a.id
  pub sha : lift_id (create_candidate_sha a.candidate_sha) ≡ ok a.candidate_sha
  pub run : lift_id (create_validation_run_id a.validation_run_id) ≡ ok a.validation_run_id
  pub digest : is_sha256 a.evidence_digest ≡ true
  pub lower : to_lower a.evidence_digest ≡ a.evidence_digest
  pub actor : trim_actor a.actor ≡ a.actor
  pub reasoned : is_blank a.rationale ≡ false
  pub trimmed : trim a.rationale ≡ a.rationale
  pub supersedes : create_supersedes a.supersedes ≡ ok a.supersedes
  pub status : IsFixedStatus a.status

id_stable :
    (t u : Text)
    → lift_id (create_governance_approval_id t) ≡ ok u
    → lift_id (create_governance_approval_id u) ≡ ok u
unfolding create_governance_approval_id assert_non_empty
id_stable t u h = ground (arith, h, trim-trim t)

run_stable :
    (t u : Text)
    → lift_id (create_validation_run_id t) ≡ ok u
    → lift_id (create_validation_run_id u) ≡ ok u
unfolding create_validation_run_id assert_non_empty
run_stable t u h = ground (arith, h, trim-trim t)

sha_stable :
    (t u : Text) → lift_id (create_candidate_sha t) ≡ ok u → lift_id (create_candidate_sha u) ≡ ok u
sha_stable t u h =
    let w = create_candidate_sha-IsCanonicalSha t u (ground (arith, h)) in rw w.stable refl

record FixedParts (props : CreateCandidateApprovalRecordProps) (a : CandidateApprovalRecord)
    : Type 0 where
  made : lift_id (create_governance_approval_id props.id) ≡ ok a.id
  sha : lift_id (create_candidate_sha props.candidate_sha) ≡ ok a.candidate_sha
  run : lift_id (create_validation_run_id props.validation_run_id) ≡ ok a.validation_run_id
  digest_given : is_sha256 props.evidence_digest ≡ true
  digest : a.evidence_digest ≡ to_lower props.evidence_digest
  actor : a.actor ≡ trim_actor props.actor
  reasoned : is_blank props.rationale ≡ false
  rationale : a.rationale ≡ trim props.rationale
  supersedes : create_supersedes props.supersedes ≡ ok a.supersedes
  status : a.status ≡ active

fixed_parts :
    (props : CreateCandidateApprovalRecordProps) (a : CandidateApprovalRecord)
    → create_candidate_approval_record props ≡ ok a
    → FixedParts props a
unfolding create_candidate_approval_record
fixed_parts props a h = ground (arith, h)

created-IsFixed :
    (props : CreateCandidateApprovalRecordProps) (a : CandidateApprovalRecord)
    → create_candidate_approval_record props ≡ ok a
    → IsFixed a
created-IsFixed props a h =
    let p = fixed_parts props a h in
    let d = to_lower-IsDigest props.evidence_digest p.digest_given in
    record {
      id = id_stable props.id a.id p.made;
      sha = sha_stable props.candidate_sha a.candidate_sha p.sha;
      run = run_stable props.validation_run_id a.validation_run_id p.run;
      digest = rw p.digest d.sha;
      lower = rw p.digest d.lower;
      actor = rw p.actor (trim_actor-trim_actor props.actor);
      reasoned = rw p.rationale (rw (trim-trim props.rationale) p.reasoned);
      trimmed = rw p.rationale (trim-trim props.rationale);
      supersedes = supersedes_stable props.supersedes a.supersedes p.supersedes;
      status = rw p.status (unfold IsFixedStatus in tt);
    }

revoked_parts :
    (a b : CandidateApprovalRecord) (by : ApprovalActor) (rationale : Text)
    (revoked_at : Option Text) (now : Text)
    → revoke_candidate_approval_record a by rationale revoked_at now ≡ ok b
    → (is_blank rationale ≡ false)
      × (b.status
          ≡ revoked (record {
            revoked_at = value_or revoked_at now;
            revoked_by = trim_actor by;
            rationale = trim rationale;
          }))
unfolding revoke_candidate_approval_record
revoked_parts a b by rationale revoked_at now h = ground (arith, h)

superseded_status :
    (a b : CandidateApprovalRecord)
    → supersede_candidate_approval_record a ≡ ok b
    → b.status ≡ superseded
unfolding supersede_candidate_approval_record
superseded_status a b h = ground (arith, h)

Step-IsFixedStatus : {a b : CandidateApprovalRecord} → Step a b → IsFixedStatus b.status
unfolding IsFixedStatus
Step-IsFixedStatus {a} {b} (revoke by rationale at now e) =
    let (reasoned, status) = revoked_parts a b by rationale at now e in
    rw status (trim_actor-trim_actor by, rw (trim-trim rationale) reasoned, trim-trim rationale)
Step-IsFixedStatus {a} {b} (supersede e) = rw (superseded_status a b e) tt

Step-IsFixed : {a b : CandidateApprovalRecord} → Step a b → IsFixed a → IsFixed b
Step-IsFixed {a} {b} s i =
    let j : IsFixed (record b { status = a.status }) =
      subst (λ x. IsFixed x) (sym (Step-IsFinal s).kept) i in
    record {
      id = j.id;
      sha = j.sha;
      run = j.run;
      digest = j.digest;
      lower = j.lower;
      actor = j.actor;
      reasoned = j.reasoned;
      trimmed = j.trimmed;
      supersedes = j.supersedes;
      status = Step-IsFixedStatus s;
    }

pub History-IsFixed : {a : CandidateApprovalRecord} → History a → IsFixed a
History-IsFixed (created {a = a} props e) = created-IsFixed props a e
History-IsFixed (changed h s) = Step-IsFixed s (History-IsFixed h)

-- Who revoked an approval, and when, as the use case takes it from the session and the clock.
unfoldable pub IsKnownStatus : ApprovalStatus → Type 0
IsKnownStatus active = Unit
IsKnownStatus superseded = Unit
IsKnownStatus (revoked r) =
    (create_actor_id r.revoked_by.id ≡ ok r.revoked_by.id)
    × (create_instant r.revoked_at ≡ ok r.revoked_at)

-- The identifiers of the people and the times are canonical.
pub record IsKnown (a : CandidateApprovalRecord) : Type 0 where
  pub actor : create_actor_id a.actor.id ≡ ok a.actor.id
  pub decided_at : create_instant a.decided_at ≡ ok a.decided_at
  pub status : IsKnownStatus a.status

recreate_active-IsFixed :
    (a : CandidateApprovalRecord)
    → IsFixed a
    → IsKnown a
    → recreate_active a ≡ ok (record a { status = active })
unfolding recreate_active create_candidate_approval_record
recreate_active-IsFixed a i k = rw k.actor (
    rw k.decided_at (
      rw i.reasoned (
        rw i.digest
          (rw i.id (rw i.sha (rw i.run (rw i.supersedes (cc (i.lower, i.trimmed, i.actor)))))))))

recreate_status-IsFixed :
    (s : ApprovalStatus) (a : CandidateApprovalRecord)
    → a.status ≡ s
    → IsFixedStatus s
    → IsKnownStatus s
    → recreate_status s (record a { status = active }) ≡ ok a
unfolding recreate_status IsFixedStatus IsKnownStatus supersede_candidate_approval_record
    revoke_candidate_approval_record
recreate_status-IsFixed active a e i k = ap (λ s. ok (record a { status = s })) (sym e)
recreate_status-IsFixed superseded a e i k = ap (λ s. ok (record a { status = s })) (sym e)
recreate_status-IsFixed (revoked r) a e i k = rw k.0 (rw k.1 (rw i.1 (cc (i.0, i.2, e))))

pub recreate-History : {a : CandidateApprovalRecord} → History a → IsKnown a → recreate a ≡ ok a
unfolding recreate
recreate-History {a} h k =
    let i = History-IsFixed h in
    rw (recreate_active-IsFixed a i k) (recreate_status-IsFixed a.status a refl i.status k.status)
