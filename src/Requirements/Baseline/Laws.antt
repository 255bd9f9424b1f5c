-- ===== src/Requirements/Baseline/Laws.antt =====
-- Which requirement and policy revisions a baseline may be made of.
use solutions_studio.Base.{
  ◌≤◌, ◌≡◌, refl, ◌≢◌, ◌↔◌, true, false, Option, none, some, List, [], ◌∷◌, ◌++◌, arith, All,
  is_empty, value_or,
}
use solutions_studio.Base.Text.{Text}
use solutions_studio.Base.Counts.{count}
use solutions_studio.Base.Result.{ok}
use solutions_studio.Requirements.Types.{PolicyConstraintRevision, RequirementsBaseline}
use solutions_studio.Requirements.Baseline.{
  CreateRequirementsBaselineParams, membership_violations, policy_violations,
  validate_baseline_membership, validate_policy_constraint_baseline_membership,
  create_requirements_baseline, baseline_of, policy_violations_of,
}
use solutions_studio.Requirements.Baseline.Membership.{
  IsEligible, IsPolicyEligible, requirement_ids, policy_constraint_ids, membership_violations-nil,
  policy_violations-nil,
}

abbrev pub policies : CreateRequirementsBaselineParams → List PolicyConstraintRevision
policies params = value_or params.policy_constraints []

-- What may be made a baseline of.
pub record IsBaselineMaterial (params : CreateRequirementsBaselineParams) : Type 0 where
  pub nonempty : params.requirements ≢ []
  pub eligible : All IsEligible params.requirements
  pub one_each : (u : Text) → count u (requirement_ids params.requirements) ≤ 1
  pub policies_eligible : All IsPolicyEligible (policies params)
  pub one_policy_each : (u : Text) → count u (policy_constraint_ids (policies params)) ≤ 1

-- Revisions have identifiers.
pub record HasIds (params : CreateRequirementsBaselineParams) : Type 0 where
  pub requirements : All (λ c. is_empty c.id ≡ false) params.requirements
  pub constraints : All (λ c. is_empty c.id ≡ false) (policies params)

policy_violations_of_lem :
    (ps : Option (List PolicyConstraintRevision))
    → policy_violations_of ps ≡ policy_violations [] (value_or ps [])
unfolding policy_violations_of validate_policy_constraint_baseline_membership policy_violations
policy_violations_of_lem none = refl
policy_violations_of_lem (some ps) = refl

append_nil_parts {ℓ} :
    {A : Type ℓ} (xs ys : List A) → is_empty (xs ++ ys) ≡ true → (xs ≡ []) × (ys ≡ [])
append_nil_parts [] [] h = (refl, refl)
append_nil_parts [] (y ∷ ys) h = cc
append_nil_parts (x ∷ xs) ys h = cc

created_parts :
    (params : CreateRequirementsBaselineParams) (now : Text) {b : RequirementsBaseline}
    → create_requirements_baseline params now ≡ ok b
    → (params.requirements ≢ [])
      × (membership_violations [] params.requirements ≡ [])
      × (policy_violations [] (policies params) ≡ [])
      × (b ≡ baseline_of params now)
unfolding create_requirements_baseline validate_baseline_membership
created_parts params now h = ground (
  arith,
  policy_violations_of_lem params.policy_constraints,
  append_nil_parts (membership_violations [] params.requirements)
      (policy_violations_of params.policy_constraints),
)

created_of_parts :
    (params : CreateRequirementsBaselineParams) (now : Text)
    → params.requirements ≢ []
    → membership_violations [] params.requirements ≡ []
    → policy_violations [] (policies params) ≡ []
    → create_requirements_baseline params now ≡ ok (baseline_of params now)
unfolding create_requirements_baseline validate_baseline_membership
created_of_parts params now n r p =
    ground (arith, policy_violations_of_lem params.policy_constraints)

material_of_created :
    (params : CreateRequirementsBaselineParams) (now : Text) {b : RequirementsBaseline}
    → HasIds params
    → create_requirements_baseline params now ≡ ok b
    → IsBaselineMaterial params
material_of_created params now ids h =
    let (n, r, p, _) = created_parts params now h in
    let (eligible, one_each) =
      (membership_violations-nil params.requirements ids.requirements).0 r in
    let (allowed, one_policy) = (policy_violations-nil (policies params) ids.constraints).0 p in
    record {
      nonempty = n;
      eligible = eligible;
      one_each = one_each;
      policies_eligible = allowed;
      one_policy_each = one_policy;
    }

created_of_material :
    (params : CreateRequirementsBaselineParams) (now : Text)
    → HasIds params
    → IsBaselineMaterial params
    → create_requirements_baseline params now ≡ ok (baseline_of params now)
created_of_material params now ids m =
    created_of_parts params now m.nonempty
      ((membership_violations-nil params.requirements ids.requirements).1 (m.eligible, m.one_each))
      ((policy_violations-nil (policies params) ids.constraints).1
        (m.policies_eligible, m.one_policy_each))

-- For revisions whose identifiers are not empty, a baseline b is created exactly from at least one
-- requirement revision, each ACCEPTED, CLEAR and with evidence if its origin is EXPLICIT or INFERRED,
-- no two of one requirement, and from policy constraint revisions that are ACCEPTED, have an authority
-- reference, and are no two of one constraint; and b is then the baseline that lists just these
-- revisions.
pub create_requirements_baseline_iff :
    (params : CreateRequirementsBaselineParams) (now : Text) (b : RequirementsBaseline)
    → HasIds params
    → (create_requirements_baseline params now ≡ ok b)
      ↔ (IsBaselineMaterial params × (b ≡ baseline_of params now))
create_requirements_baseline_iff params now b ids = (
  λ h. (material_of_created params now ids h, (created_parts params now h).3),
  λ (m, e). rw e (created_of_material params now ids m),
)
