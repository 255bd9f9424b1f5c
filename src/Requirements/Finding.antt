-- ===== src/Requirements/Finding.antt =====
-- packages/domain/src/requirements/CandidateFinding.ts.
pub mod Laws
use solutions_studio.Base.{
  Bool, true, false, not, ◌&&◌, Option, none, some, List, [], value_or, if◌then◌else◌,
}
use solutions_studio.Base.Text.{Text, trim, is_blank}
use solutions_studio.Base.Result.{Result, ok, throw, ◌>>=◌, ◌>>◌, throw_if}
use solutions_studio.Requirements.Types.{
  FindingType, FindingDisposition, open_finding, resolved, dismissed_false_positive, accepted_risk,
  DiscoveredBy, EvidenceReference, CandidateFinding, DomainError, invalid_finding_type,
  invalid_discovered_by, invalid_disposition, finding_rationale_required,
}

pub record CreateCandidateFindingParams : Type 0 where
  pub id : Text
  pub type : FindingType
  pub affected_requirement_revisions : Option (List Text)
  pub evidence : Option (List EvidenceReference)
  pub discovered_by : DiscoveredBy
  pub disposition : Option FindingDisposition
  pub rationale : Option Text
  pub actor_id : Option Text
  pub baseline_id : Option Text
  pub originating_projection_id : Option Text

unfoldable pub is_finding_type : FindingType → Bool
is_finding_type (FindingType.unlisted _) = false
is_finding_type _ = true

unfoldable pub is_discovered_by : DiscoveredBy → Bool
is_discovered_by (DiscoveredBy.unlisted _) = false
is_discovered_by _ = true

unfoldable pub is_disposition : FindingDisposition → Bool
is_disposition (FindingDisposition.unlisted _) = false
is_disposition _ = true

unfoldable pub is_open : FindingDisposition → Bool
is_open open_finding = true
is_open _ = false

-- `typeof rationale !== 'string' || rationale.trim().length === 0`.
unfoldable pub lacks_text : Option Text → Bool
lacks_text none = true
lacks_text (some t) = is_blank t

-- The trimmed text, and undefined where nothing is left of it.
unfoldable pub trimmed_text : Option Text → Option Text
trimmed_text none = none
trimmed_text (some t) = if is_blank t then none else some (trim t)

unfoldable pub create_candidate_finding :
    CreateCandidateFindingParams → Result DomainError CandidateFinding
create_candidate_finding params = do
  throw_if (not (is_finding_type params.type)) (invalid_finding_type params.type)
  throw_if (not (is_discovered_by params.discovered_by))
      (invalid_discovered_by params.discovered_by)
  let disposition = value_or params.disposition open_finding
  throw_if (not (is_disposition disposition)) (invalid_disposition disposition)
  throw_if (not (is_open disposition) && lacks_text params.rationale)
      (finding_rationale_required disposition)
  ok (record {
    id = params.id;
    type = params.type;
    affected_requirement_revisions = value_or params.affected_requirement_revisions [];
    evidence = value_or params.evidence [];
    discovered_by = params.discovered_by;
    disposition = disposition;
    rationale = trimmed_text params.rationale;
    actor_id = params.actor_id;
    baseline_id = params.baseline_id;
    originating_projection_id = params.originating_projection_id;
  })

unfoldable pub transition_disposition :
    CandidateFinding → FindingDisposition → Text → Result DomainError CandidateFinding
transition_disposition finding new_disposition rationale = do
  throw_if (is_blank rationale) (finding_rationale_required new_disposition)
  ok (record finding { disposition = new_disposition; rationale = some (trim rationale) })

unfoldable pub resolve_finding : CandidateFinding → Text → Result DomainError CandidateFinding
unfolding transition_disposition
resolve_finding finding rationale = transition_disposition finding resolved rationale

unfoldable pub dismiss_as_false_positive :
    CandidateFinding → Text → Result DomainError CandidateFinding
unfolding transition_disposition
dismiss_as_false_positive finding rationale =
    transition_disposition finding dismissed_false_positive rationale

unfoldable pub accept_risk : CandidateFinding → Text → Result DomainError CandidateFinding
unfolding transition_disposition
accept_risk finding rationale = transition_disposition finding accepted_risk rationale

unfoldable pub reopen_finding : CandidateFinding → Option Text → CandidateFinding
unfolding trimmed_text
reopen_finding finding rationale = record finding {
  disposition = open_finding;
  rationale = trimmed_text rationale;
}
