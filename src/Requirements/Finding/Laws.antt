-- ===== src/Requirements/Finding/Laws.antt =====
-- The life of a finding: only an open one may lack a rationale, and what was found never changes.
use solutions_studio.Base.{true, false, Option, none, some, ◌≡◌, refl, ◌≢◌, arith}
use solutions_studio.Base.Text.{Text, trim-trim}
use solutions_studio.Base.Result.{ok}
use solutions_studio.Requirements.Types.{CandidateFinding}
use solutions_studio.Requirements.Finding.{
  CreateCandidateFindingParams, is_finding_type, is_discovered_by, is_disposition, is_open,
  lacks_text, trimmed_text, create_candidate_finding, resolve_finding, dismiss_as_false_positive,
  accept_risk, reopen_finding,
}

pub record IsAuditable (f : CandidateFinding) : Type 0 where
  pub type_listed : is_finding_type f.type ≡ true
  pub discoverer_listed : is_discovered_by f.discovered_by ≡ true
  pub disposition_listed : is_disposition f.disposition ≡ true
  -- A finding that was disposed of says why, and no rationale is blank or padded.
  pub explained : is_open f.disposition ≡ false → f.rationale ≢ none
  pub rationale_trimmed : trimmed_text f.rationale ≡ f.rationale

trimmed_text_idem : (o : Option Text) → trimmed_text (trimmed_text o) ≡ trimmed_text o
unfolding trimmed_text
trimmed_text_idem none = refl
trimmed_text_idem (some t) = ground (arith, trim-trim t)

trimmed_text-none : (o : Option Text) → lacks_text o ≡ false → trimmed_text o ≢ none
unfolding trimmed_text lacks_text
trimmed_text-none none h = cc
trimmed_text-none (some t) h = ground arith

pub create_candidate_finding-IsAuditable :
    (params : CreateCandidateFindingParams) {f : CandidateFinding}
    → create_candidate_finding params ≡ ok f
    → IsAuditable f
unfolding create_candidate_finding
create_candidate_finding-IsAuditable params h =
    ground (arith, trimmed_text_idem params.rationale, trimmed_text-none params.rationale)

-- The operations on a finding.
pub data Step : CandidateFinding → CandidateFinding → Type 0 where
  resolve : {f g : CandidateFinding} (r : Text) → resolve_finding f r ≡ ok g → Step f g
  dismiss : {f g : CandidateFinding} (r : Text) → dismiss_as_false_positive f r ≡ ok g → Step f g
  accept : {f g : CandidateFinding} (r : Text) → accept_risk f r ≡ ok g → Step f g
  reopen : {f g : CandidateFinding} (r : Option Text) → reopen_finding f r ≡ g → Step f g

pub data Reach (f : CandidateFinding) : CandidateFinding → Type 0 where
  here : Reach f f
  next : {g h : CandidateFinding} → Reach f g → Step g h → Reach f h

-- What was found, by whom, on what evidence.
pub record SameFinding (f g : CandidateFinding) : Type 0 where
  pub id : g.id ≡ f.id
  pub type : g.type ≡ f.type
  pub affected : g.affected_requirement_revisions ≡ f.affected_requirement_revisions
  pub evidence : g.evidence ≡ f.evidence
  pub discoverer : g.discovered_by ≡ f.discovered_by
  pub actor : g.actor_id ≡ f.actor_id
  pub baseline : g.baseline_id ≡ f.baseline_id
  pub origin : g.originating_projection_id ≡ f.originating_projection_id

Step-IsAuditable : {f g : CandidateFinding} → Step f g → IsAuditable f → IsAuditable g
unfolding resolve_finding dismiss_as_false_positive accept_risk reopen_finding is_open
    is_disposition
Step-IsAuditable (resolve r e) a = ground (arith, trim-trim r)
Step-IsAuditable (dismiss r e) a = ground (arith, trim-trim r)
Step-IsAuditable (accept r e) a = ground (arith, trim-trim r)
Step-IsAuditable (reopen r e) a = ground (arith, trimmed_text_idem r)

Step-SameFinding : {f g : CandidateFinding} → Step f g → SameFinding f g
unfolding resolve_finding dismiss_as_false_positive accept_risk reopen_finding
Step-SameFinding (resolve r e) = ground arith
Step-SameFinding (dismiss r e) = ground arith
Step-SameFinding (accept r e) = ground arith
Step-SameFinding (reopen r e) = ground arith

Reach-SameFinding : {f g : CandidateFinding} → Reach f g → SameFinding f g
Reach-SameFinding here = ground arith
Reach-SameFinding (next r s) = ground (arith, Reach-SameFinding r, Step-SameFinding s)

Reach-IsAuditable : {f g : CandidateFinding} → IsAuditable f → Reach f g → IsAuditable g
Reach-IsAuditable a here = a
Reach-IsAuditable a (next r s) = Step-IsAuditable s (Reach-IsAuditable a r)

-- However a created finding is resolved, dismissed, accepted as a risk and reopened, it stays
-- auditable, and what was found stays as it was recorded.
pub finding_history :
    (params : CreateCandidateFindingParams) (f g : CandidateFinding)
    → create_candidate_finding params ≡ ok f
    → Reach f g
    → IsAuditable g × SameFinding f g
finding_history params f g h r =
    (Reach-IsAuditable (create_candidate_finding-IsAuditable params h) r, Reach-SameFinding r)
