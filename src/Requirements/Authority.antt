-- ===== src/Requirements/Authority.antt =====
-- packages/domain/src/requirements/AuthorityBundle.ts.
pub mod Laws
use solutions_studio.Base.{
  ℕ, Bool, true, false, not, ◌&&◌, ◌||◌, Option, none, some, List, [], ◌∷◌, map, any, length, ◌==◌,
  value_or,
}
use solutions_studio.Base.Text.{Text, has}
use solutions_studio.Base.Sets.{set_of}
use solutions_studio.Base.Result.{Result, ok, throw, ◌>>=◌, ◌>>◌, throw_if}
use solutions_studio.Requirements.Types.{
  RequirementRevision, PolicyConstraintRevision, RequirementsBaseline, DomainError,
  requirements_differ_from_baseline, policies_differ_from_baseline, requirement_not_authoritative,
  policy_not_authoritative,
}
use solutions_studio.Requirements.Baseline.{is_accepted, is_clear, is_policy_accepted}

pub record AuthorityBundle : Type 0 where
  pub baseline : RequirementsBaseline
  pub requirements : List RequirementRevision
  pub policy_constraints : List PolicyConstraintRevision

abbrev pub requirement_ids : List RequirementRevision → List Text
requirement_ids rs = map (λ r. r.id) rs

abbrev pub policy_ids : List PolicyConstraintRevision → List Text
policy_ids ps = map (λ p. p.id) ps

-- `baselineIds.size !== bundleIds.size || bundle.some((r) => !baselineIds.has(r.id))`, where the
-- bundle is given by the identifiers of its members.
unfoldable pub differs : List Text → List Text → Bool
differs baseline_ids bundle_ids =
    not (length (set_of baseline_ids) == length (set_of bundle_ids))
    || any (λ id. not (has id (set_of baseline_ids))) bundle_ids

-- The loop over the requirements, and the one over the policy constraints.
unfoldable pub check_requirements : List RequirementRevision → Result DomainError (Unit {0})
check_requirements [] = ok tt
check_requirements (r ∷ rs) = do
  throw_if (not (is_accepted r.review_state) || not (is_clear r.resolution_state))
      (requirement_not_authoritative r.id)
  check_requirements rs

unfoldable pub check_policies : List PolicyConstraintRevision → Result DomainError (Unit {0})
check_policies [] = ok tt
check_policies (p ∷ ps) = do
  throw_if (not (is_policy_accepted p.state)) (policy_not_authoritative p.id)
  check_policies ps

unfoldable pub create_authority_bundle :
    (baseline : RequirementsBaseline) (requirements : List RequirementRevision)
    (policy_constraints : Option (List PolicyConstraintRevision))
    → Result DomainError AuthorityBundle
create_authority_bundle baseline requirements policy_constraints = do
  let policies = value_or policy_constraints []
  throw_if (differs baseline.requirement_revisions (requirement_ids requirements))
      requirements_differ_from_baseline
  throw_if (differs baseline.policy_constraint_revisions (policy_ids policies))
      policies_differ_from_baseline
  check_requirements requirements
  check_policies policies
  ok (record { baseline = baseline; requirements = requirements; policy_constraints = policies })
