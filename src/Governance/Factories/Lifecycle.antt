-- ===== src/Governance/Factories/Lifecycle.antt =====
-- The life of an approval: it is created active, and revoked or superseded at most once.
use solutions_studio.Base.{◌≡◌, true, false, Option, arith}
use solutions_studio.Base.Text.{Text, is_blank, trim-trim}
use solutions_studio.Base.Result.{ok, throw}
use solutions_studio.Ids.Laws.{IsCanonicalSha, create_candidate_sha-IsCanonicalSha}
use solutions_studio.Governance.Types.{
  human, ApprovalActor, ApprovalRevocation, ApprovalStatus, active, superseded, revoked,
  CandidateApprovalRecord, invalid_approval_state,
}
use solutions_studio.Governance.Factories.{
  CreateCandidateApprovalRecordProps, is_active, create_candidate_approval_record,
  revoke_candidate_approval_record, supersede_candidate_approval_record,
}
use solutions_studio.Ids.Laws.{IsDigest, to_lower-IsDigest}
use solutions_studio.Governance.Factories.Laws.{approval_parts}

-- A revocation is by a human who gives a reason.
abbrev pub IsRevocation : ApprovalRevocation → Type 0
IsRevocation r = (r.revoked_by.actor_type ≡ human) × (is_blank r.rationale ≡ false)

unfoldable pub IsAccounted : ApprovalStatus → Type 0
IsAccounted active = Unit
IsAccounted superseded = Unit
IsAccounted (revoked r) = IsRevocation r

-- An approval that can be audited.
pub record IsApproval (a : CandidateApprovalRecord) : Type 0 where
  pub by_human : a.actor.actor_type ≡ human
  pub reasoned : is_blank a.rationale ≡ false
  pub candidate : IsCanonicalSha a.candidate_sha
  pub digest : IsDigest a.evidence_digest
  pub accounted : IsAccounted a.status

-- The operations on an approval.
pub data Step : CandidateApprovalRecord → CandidateApprovalRecord → Type 0 where
  revoke :
      {a b : CandidateApprovalRecord} (by : ApprovalActor) (rationale : Text)
      (revoked_at : Option Text) (now : Text)
      → revoke_candidate_approval_record a by rationale revoked_at now ≡ ok b
      → Step a b
  supersede :
      {a b : CandidateApprovalRecord} → supersede_candidate_approval_record a ≡ ok b → Step a b

pub data History : CandidateApprovalRecord → Type 0 where
  created :
      {a : CandidateApprovalRecord} (props : CreateCandidateApprovalRecordProps)
      → create_candidate_approval_record props ≡ ok a
      → History a
  changed : {a b : CandidateApprovalRecord} → History a → Step a b → History b

IsAccounted-active : {s : ApprovalStatus} → s ≡ active → IsAccounted s
unfolding IsAccounted
IsAccounted-active e = rw e tt

create_candidate_approval_record-IsApproval :
    (props : CreateCandidateApprovalRecordProps) (a : CandidateApprovalRecord)
    → create_candidate_approval_record props ≡ ok a
    → IsApproval a
create_candidate_approval_record-IsApproval props a h =
    let p = approval_parts props a h in
    record {
      by_human = p.human_actor;
      reasoned = p.reasoned;
      candidate =
          create_candidate_sha-IsCanonicalSha props.candidate_sha a.candidate_sha p.candidate;
      digest = rw p.digest (to_lower-IsDigest props.evidence_digest p.digest_given);
      accounted = IsAccounted-active p.status;
    }

Step-IsApproval : {a b : CandidateApprovalRecord} → Step a b → IsApproval a → IsApproval b
unfolding revoke_candidate_approval_record supersede_candidate_approval_record IsAccounted
Step-IsApproval (revoke by rationale at now e) i = ground (arith, trim-trim rationale)
Step-IsApproval (supersede e) i = ground arith

-- The caller's actor of every creation and revocation was a human.
unfoldable pub ByHumans : {a : CandidateApprovalRecord} → History a → Type 0
ByHumans (created props e) = props.actor.actor_type ≡ human
ByHumans (changed h (revoke by rationale at now e)) = (by.actor_type ≡ human) × ByHumans h
ByHumans (changed h (supersede e)) = ByHumans h

create_by_human :
    (props : CreateCandidateApprovalRecordProps) (a : CandidateApprovalRecord)
    → create_candidate_approval_record props ≡ ok a
    → props.actor.actor_type ≡ human
unfolding create_candidate_approval_record
create_by_human props a h = ground arith

revoke_by_human :
    (a b : CandidateApprovalRecord) (by : ApprovalActor) (rationale : Text)
    (revoked_at : Option Text) (now : Text)
    → revoke_candidate_approval_record a by rationale revoked_at now ≡ ok b
    → by.actor_type ≡ human
unfolding revoke_candidate_approval_record
revoke_by_human a b by rationale revoked_at now h = ground arith

History-ByHumans : {a : CandidateApprovalRecord} → (h : History a) → ByHumans h
unfolding ByHumans
History-ByHumans (created {a = a} props e) = create_by_human props a e
History-ByHumans (changed h (revoke {a = a} {b = b} by rationale at now e)) =
    (revoke_by_human a b by rationale at now e, History-ByHumans h)
History-ByHumans (changed h (supersede e)) = History-ByHumans h

audited : {a : CandidateApprovalRecord} → History a → IsApproval a
audited (created {a = a} props e) = create_candidate_approval_record-IsApproval props a e
audited (changed h s) = Step-IsApproval s (audited h)

-- However an approval came about, the callers that created and revoked it were humans, and it names a
-- human who gave a reason, a canonical SHA and digest, and if it is revoked, a human who gave a reason.
pub History-IsApproval : {a : CandidateApprovalRecord} → (h : History a) → ByHumans h × IsApproval a
History-IsApproval h = (History-ByHumans h, audited h)

-- What a change keeps: all but the status, which was active and is no more.
pub record IsFinal (a b : CandidateApprovalRecord) : Type 0 where
  pub from_active : is_active a.status ≡ true
  pub not_active : is_active b.status ≡ false
  pub kept : record b { status = a.status } ≡ a

pub Step-IsFinal : {a b : CandidateApprovalRecord} → Step a b → IsFinal a b
unfolding revoke_candidate_approval_record supersede_candidate_approval_record
Step-IsFinal (revoke by rationale at now e) = ground arith
Step-IsFinal (supersede e) = ground arith

refused :
    (b : CandidateApprovalRecord) (by : ApprovalActor) (rationale : Text) (revoked_at : Option Text)
    (now : Text)
    → is_active b.status ≡ false
    → (revoke_candidate_approval_record b by rationale revoked_at now
        ≡ throw (invalid_approval_state b.id b.status))
      × (supersede_candidate_approval_record b ≡ throw (invalid_approval_state b.id b.status))
unfolding revoke_candidate_approval_record supersede_candidate_approval_record
refused b by rationale revoked_at now h = ground arith

-- An approval that was revoked or superseded keeps everything but its status, and every further
-- change of it is refused as an invalid approval state.
pub approval_changes_once :
    (a b : CandidateApprovalRecord) (by : ApprovalActor) (rationale : Text)
    (revoked_at : Option Text) (now : Text)
    → Step a b
    → IsFinal a b
      × (revoke_candidate_approval_record b by rationale revoked_at now
          ≡ throw (invalid_approval_state b.id b.status))
      × (supersede_candidate_approval_record b ≡ throw (invalid_approval_state b.id b.status))
approval_changes_once a b by rationale revoked_at now s =
    let final = Step-IsFinal s in
    let (no_revocation, no_supersession) = refused b by rationale revoked_at now final.not_active in
    (final, no_revocation, no_supersession)
