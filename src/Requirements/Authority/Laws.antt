-- ===== src/Requirements/Authority/Laws.antt =====
-- An authority bundle is its baseline, and only accepted revisions are in it.
use solutions_studio.Base.{
  true, false, not, Option, ◌≡◌, refl, sym, ◌↔◌, ◌≤◌, List, [], ◌∷◌, any, arith, All, length,
  value_or,
}
use solutions_studio.Base.Text.{Text, has}
use solutions_studio.Base.Sets.{set_of, has-set_of, has_eq_of_size, count-set_of}
use solutions_studio.Base.Counts.{count_of_has, count_of_not_has, length-le_of_count}
use solutions_studio.Base.Result.{ok}
use solutions_studio.Requirements.Types.{
  RequirementRevision, PolicyConstraintRevision, RequirementsBaseline,
}
use solutions_studio.Requirements.Baseline.{is_accepted, is_clear, is_policy_accepted}
use solutions_studio.Requirements.Authority.{
  AuthorityBundle, requirement_ids, policy_ids, differs, check_requirements, check_policies,
  create_authority_bundle,
}

any_outside :
    (u : Text) (known ids : List Text)
    → any (λ id. not (has id (set_of known))) ids ≡ false
    → has u ids ≡ true
    → has u known ≡ true
unfolding any has
any_outside u known [] h m = cc
any_outside u known (x ∷ xs) h m = ground (arith, has-set_of u known, any_outside u known xs)

-- The test of the code: the two lists hold the same identifiers.
differs-false : (xs ys : List Text) (u : Text) → differs xs ys ≡ false → has u xs ≡ has u ys
unfolding differs
differs-false xs ys u h =
    sym (has_eq_of_size ys xs (λ v m. any_outside v xs ys (ground arith) m) (ground arith) u)

none_outside :
    (known ids : List Text)
    → ((u : Text) → has u ids ≡ true → has u known ≡ true)
    → any (λ id. not (has id (set_of known))) ids ≡ false
unfolding any has
none_outside known [] h = refl
none_outside known (x ∷ xs) h =
    ground (arith, has-set_of x known, h x, none_outside known xs (λ u m. h u (ground arith)))

same_size :
    (xs ys : List Text)
    → ((u : Text) → has u xs ≡ has u ys)
    → length (set_of xs) ≤ length (set_of ys)
same_size xs ys h = length-le_of_count (set_of xs) (set_of ys) (λ u. ground (
  arith,
  h u,
  has-set_of u xs,
  has-set_of u ys,
  count-set_of u xs,
  count_of_has u (set_of ys),
  count_of_not_has u (set_of xs),
))

differs_of_same : (xs ys : List Text) → ((u : Text) → has u xs ≡ has u ys) → differs xs ys ≡ false
unfolding differs
differs_of_same xs ys h = ground (
  arith,
  same_size xs ys h,
  same_size ys xs (λ u. sym (h u)),
  none_outside xs ys (λ u m. ground (arith, h u)),
)

-- An accepted requirement revision, and an accepted policy constraint revision.
abbrev pub IsAuthoritative : RequirementRevision → Type 0
IsAuthoritative r = (is_accepted r.review_state ≡ true) × (is_clear r.resolution_state ≡ true)

abbrev pub IsPolicyAuthoritative : PolicyConstraintRevision → Type 0
IsPolicyAuthoritative p = is_policy_accepted p.state ≡ true

requirements_checked :
    (rs : List RequirementRevision) → check_requirements rs ≡ ok tt → All IsAuthoritative rs
unfolding check_requirements
requirements_checked [] h = tt
requirements_checked (r ∷ rs) h = ground (arith, requirements_checked rs)

requirements_pass :
    (rs : List RequirementRevision) → All IsAuthoritative rs → check_requirements rs ≡ ok tt
unfolding check_requirements
requirements_pass [] h = refl
requirements_pass (r ∷ rs) h = ground (arith, requirements_pass rs h.1)

policies_checked :
    (ps : List PolicyConstraintRevision) → check_policies ps ≡ ok tt → All IsPolicyAuthoritative ps
unfolding check_policies
policies_checked [] h = tt
policies_checked (p ∷ ps) h = ground (arith, policies_checked ps)

policies_pass :
    (ps : List PolicyConstraintRevision) → All IsPolicyAuthoritative ps → check_policies ps ≡ ok tt
unfolding check_policies
policies_pass [] h = refl
policies_pass (p ∷ ps) h = ground (arith, policies_pass ps h.1)

-- What a bundle is for a baseline: the same revisions, all of them accepted.
pub record IsAuthority (baseline : RequirementsBaseline) (requirements : List RequirementRevision)
    (policies : List PolicyConstraintRevision) : Type 0 where
  pub same_requirements :
      (u : Text) → has u baseline.requirement_revisions ≡ has u (requirement_ids requirements)
  pub same_policies :
      (u : Text) → has u baseline.policy_constraint_revisions ≡ has u (policy_ids policies)
  pub accepted : All IsAuthoritative requirements
  pub policies_accepted : All IsPolicyAuthoritative policies

abbrev pub bundle_of :
    RequirementsBaseline
    → List RequirementRevision
    → List PolicyConstraintRevision
    → AuthorityBundle
bundle_of baseline requirements policies = record {
  baseline = baseline;
  requirements = requirements;
  policy_constraints = policies;
}

created_lem :
    (baseline : RequirementsBaseline) (requirements : List RequirementRevision)
    (policies : Option (List PolicyConstraintRevision)) {b : AuthorityBundle}
    → create_authority_bundle baseline requirements policies ≡ ok b
    → b ≡ bundle_of baseline requirements (value_or policies [])
unfolding create_authority_bundle
created_lem baseline requirements policies h = ground arith

bundle_parts :
    (baseline : RequirementsBaseline) (requirements : List RequirementRevision)
    (policies : Option (List PolicyConstraintRevision)) {b : AuthorityBundle}
    → create_authority_bundle baseline requirements policies ≡ ok b
    → (differs baseline.requirement_revisions (requirement_ids requirements) ≡ false)
      × (differs baseline.policy_constraint_revisions (policy_ids (value_or policies [])) ≡ false)
      × (check_requirements requirements ≡ ok tt)
      × (check_policies (value_or policies []) ≡ ok tt)
unfolding create_authority_bundle
bundle_parts baseline requirements policies h = ground arith

sound :
    (baseline : RequirementsBaseline) (requirements : List RequirementRevision)
    (policies : Option (List PolicyConstraintRevision)) {b : AuthorityBundle}
    → create_authority_bundle baseline requirements policies ≡ ok b
    → IsAuthority baseline requirements (value_or policies [])
sound baseline requirements policies h =
    let (r, p, cr, cp) = bundle_parts baseline requirements policies h in
    record {
      same_requirements = λ u. differs-false _ _ u r;
      same_policies = λ u. differs-false _ _ u p;
      accepted = requirements_checked requirements cr;
      policies_accepted = policies_checked _ cp;
    }

complete :
    (baseline : RequirementsBaseline) (requirements : List RequirementRevision)
    (policies : Option (List PolicyConstraintRevision))
    → IsAuthority baseline requirements (value_or policies [])
    → create_authority_bundle baseline requirements policies
      ≡ ok (bundle_of baseline requirements (value_or policies []))
unfolding create_authority_bundle
complete baseline requirements policies a = ground (
  arith,
  differs_of_same baseline.requirement_revisions (requirement_ids requirements) a.same_requirements,
  differs_of_same baseline.policy_constraint_revisions (policy_ids (value_or policies []))
      a.same_policies,
  requirements_pass requirements a.accepted,
  policies_pass (value_or policies []) a.policies_accepted,
)

-- A bundle b is created exactly when the requirement and policy revisions given are, as sets of
-- identifiers, those of the baseline, all of them are accepted (and the requirements CLEAR), and b
-- holds the baseline and these revisions.
pub create_authority_bundle_iff :
    (baseline : RequirementsBaseline) (requirements : List RequirementRevision)
    (policies : Option (List PolicyConstraintRevision)) (b : AuthorityBundle)
    → (create_authority_bundle baseline requirements policies ≡ ok b) ↔ (
        IsAuthority baseline requirements (value_or policies [])
        × (b ≡ bundle_of baseline requirements (value_or policies [])))
create_authority_bundle_iff baseline requirements policies b = (
  λ h. (sound baseline requirements policies h, created_lem baseline requirements policies h),
  λ (a, e). rw e (complete baseline requirements policies a),
)
