-- ===== src/Requirements/Samples/Baselines.antt =====
-- A baseline and its authority bundle, and the theorems at them.
use solutions_studio.Base.{◌≡◌, refl, ◌↔◌, none, [], ◌∷◌}
use solutions_studio.Base.Text.{Text, codes}
use solutions_studio.Base.Result.{ok}
use solutions_studio.Requirements.Baseline.{
  CreateRequirementsBaselineParams, create_requirements_baseline, baseline_of,
}
use solutions_studio.Requirements.Baseline.Laws.{
  IsBaselineMaterial, create_requirements_baseline_iff,
}
use solutions_studio.Requirements.Authority.{create_authority_bundle}
use solutions_studio.Requirements.Authority.Laws.{
  IsAuthority, bundle_of, create_authority_bundle_iff,
}
use solutions_studio.Requirements.Samples.{requirement}

abbrev params : CreateRequirementsBaselineParams
params = record {
  id = codes "BASE-1";
  requirements = requirement ∷ [];
  policy_constraints = none;
  created_at = none;
  created_by = codes "ana";
}

abbrev now : Text
now = codes "2026-01-01T00:00:00Z"

create_requirements_baseline_iff_example :
    (create_requirements_baseline params now ≡ ok (baseline_of params now))
    ↔ (IsBaselineMaterial params × (baseline_of params now ≡ baseline_of params now))
create_requirements_baseline_iff_example =
    create_requirements_baseline_iff params now (baseline_of params now)
      (record { requirements = (refl, tt); constraints = tt })

create_authority_bundle_iff_example :
    (create_authority_bundle (baseline_of params now) (requirement ∷ []) none
      ≡ ok (bundle_of (baseline_of params now) (requirement ∷ []) []))
    ↔ (IsAuthority (baseline_of params now) (requirement ∷ []) []
        × (bundle_of (baseline_of params now) (requirement ∷ []) []
            ≡ bundle_of (baseline_of params now) (requirement ∷ []) []))
create_authority_bundle_iff_example =
    create_authority_bundle_iff (baseline_of params now) (requirement ∷ []) none
      (bundle_of (baseline_of params now) (requirement ∷ []) [])
