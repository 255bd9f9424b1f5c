-- ===== src/Requirements/Baseline/Membership.antt =====
-- When the loops of the membership checks report nothing.
use solutions_studio.Base.{
  ℕ, ◌+◌, ◌≤◌, ◌≡◌, refl, ◌↔◌, true, false, List, [], ◌∷◌, map, arith, All, is_empty, if◌then◌else◌,
}
use solutions_studio.Base.Text.{Text, is_blank, is_truthy, has}
use solutions_studio.Base.Maps.{Map, get, set, has_key, get-set, has_key-set}
use solutions_studio.Base.Counts.{count}
use solutions_studio.Requirements.Types.{RequirementRevision, PolicyConstraintRevision}
use solutions_studio.Requirements.Baseline.{
  is_accepted, is_clear, is_policy_accepted, needs_evidence, reasons_of, membership_violations,
  policy_reasons_of, policy_violations,
}

-- A requirement revision that may stand in a baseline.
pub record IsEligible (c : RequirementRevision) : Type 0 where
  pub accepted : is_accepted c.review_state ≡ true
  pub clear : is_clear c.resolution_state ≡ true
  pub evidenced : needs_evidence c.origin ≡ true → is_empty c.evidence ≡ false

abbrev pub requirement_ids : List RequirementRevision → List Text
requirement_ids cs = map (λ c. c.requirement_id) cs

abbrev seen_once : Text → Map Text → ℕ
seen_once u seen = if has_key u seen then 1 else 0

-- No identifier of a revision is empty, so that what the map holds is never falsy.
abbrev IsTruthy : Map Text → Type 0
IsTruthy seen = (u : Text) → is_truthy (get u seen) ≡ has_key u seen

IsTruthy-set :
    (key id : Text) (seen : Map Text)
    → is_empty id ≡ false
    → IsTruthy seen
    → IsTruthy (set key id seen)
IsTruthy-set key id seen n t =
    λ u. ground (arith, t u, get-set key u id seen, has_key-set key u id seen)

none_reported :
    (seen : Map Text) (cs : List RequirementRevision)
    → All (λ c. is_empty c.id ≡ false) cs
    → IsTruthy seen
    → membership_violations seen cs ≡ []
    → All IsEligible cs × ((u : Text) → seen_once u seen + count u (requirement_ids cs) ≤ 1)
unfolding membership_violations reasons_of count
none_reported seen [] n t h = (tt, λ u. ground arith)
none_reported seen (c ∷ cs) n t h =
    let absent : is_truthy (get c.requirement_id seen) ≡ false = ground arith in
    let (eligible, distinct) =
      none_reported (set c.requirement_id c.id seen) cs n.1
        (IsTruthy-set c.requirement_id c.id seen n.0 t) (ground arith) in
    (
      (ground arith, eligible),
      λ u. ground (arith, t c.requirement_id, distinct u, has_key-set c.requirement_id u c.id seen),
    )

nothing_reported :
    (seen : Map Text) (cs : List RequirementRevision)
    → All (λ c. is_empty c.id ≡ false) cs
    → IsTruthy seen
    → All IsEligible cs
    → ((u : Text) → seen_once u seen + count u (requirement_ids cs) ≤ 1)
    → membership_violations seen cs ≡ []
unfolding membership_violations reasons_of count
nothing_reported seen [] n t e d = refl
nothing_reported seen (c ∷ cs) n t e d = ground (
  arith,
  e.0,
  t c.requirement_id,
  d c.requirement_id,
  nothing_reported (set c.requirement_id c.id seen) cs n.1
      (IsTruthy-set c.requirement_id c.id seen n.0 t) e.1
      (λ u. ground (arith, d u, has_key-set c.requirement_id u c.id seen)),
)

-- The check of a list of requirement revisions reports nothing exactly when each may stand in a
-- baseline and no two are of one requirement.
pub membership_violations-nil :
    (cs : List RequirementRevision)
    → All (λ c. is_empty c.id ≡ false) cs
    → (membership_violations [] cs ≡ [])
      ↔ (All IsEligible cs × ((u : Text) → count u (requirement_ids cs) ≤ 1))
membership_violations-nil cs n = (
  λ h.
      let (e, d) = none_reported [] cs n (λ u. unfold get has in refl) h in
      (e, λ u. ground (arith, d u)),
  λ (e, d).
      nothing_reported [] cs n (λ u. unfold get has in refl) e
        (λ u. unfold has in omega (arith, d u)),
)

-- The same for policy constraint revisions.
pub record IsPolicyEligible (c : PolicyConstraintRevision) : Type 0 where
  pub accepted : is_policy_accepted c.state ≡ true
  pub authorised : is_blank c.authority_reference ≡ false

abbrev pub policy_constraint_ids : List PolicyConstraintRevision → List Text
policy_constraint_ids cs = map (λ c. c.policy_constraint_id) cs

no_policy_reported :
    (seen : Map Text) (cs : List PolicyConstraintRevision)
    → All (λ c. is_empty c.id ≡ false) cs
    → IsTruthy seen
    → policy_violations seen cs ≡ []
    → All IsPolicyEligible cs
      × ((u : Text) → seen_once u seen + count u (policy_constraint_ids cs) ≤ 1)
unfolding policy_violations policy_reasons_of count
no_policy_reported seen [] n t h = (tt, λ u. ground arith)
no_policy_reported seen (c ∷ cs) n t h =
    let absent : is_truthy (get c.policy_constraint_id seen) ≡ false = ground arith in
    let (eligible, distinct) =
      no_policy_reported (set c.policy_constraint_id c.id seen) cs n.1
        (IsTruthy-set c.policy_constraint_id c.id seen n.0 t) (ground arith) in
    (
      (ground arith, eligible),
      λ u. ground (
        arith,
        t c.policy_constraint_id,
        distinct u,
        has_key-set c.policy_constraint_id u c.id seen,
      ),
    )

policy_nothing_reported :
    (seen : Map Text) (cs : List PolicyConstraintRevision)
    → All (λ c. is_empty c.id ≡ false) cs
    → IsTruthy seen
    → All IsPolicyEligible cs
    → ((u : Text) → seen_once u seen + count u (policy_constraint_ids cs) ≤ 1)
    → policy_violations seen cs ≡ []
unfolding policy_violations policy_reasons_of count
policy_nothing_reported seen [] n t e d = refl
policy_nothing_reported seen (c ∷ cs) n t e d = ground (
  arith,
  e.0,
  t c.policy_constraint_id,
  d c.policy_constraint_id,
  policy_nothing_reported (set c.policy_constraint_id c.id seen) cs n.1
      (IsTruthy-set c.policy_constraint_id c.id seen n.0 t) e.1
      (λ u. ground (arith, d u, has_key-set c.policy_constraint_id u c.id seen)),
)

pub policy_violations-nil :
    (cs : List PolicyConstraintRevision)
    → All (λ c. is_empty c.id ≡ false) cs
    → (policy_violations [] cs ≡ [])
      ↔ (All IsPolicyEligible cs × ((u : Text) → count u (policy_constraint_ids cs) ≤ 1))
policy_violations-nil cs n = (
  λ h.
      let (e, d) = no_policy_reported [] cs n (λ u. unfold get has in refl) h in
      (e, λ u. ground (arith, d u)),
  λ (e, d).
      policy_nothing_reported [] cs n (λ u. unfold get has in refl) e
        (λ u. unfold has in omega (arith, d u)),
)
